-- ===== src/Metadata.antt =====
-- metadata.go and metadata_s3.go: the typed metadata of a file, its check against the declared
-- extension columns, and the user-metadata bag of its S3 object.
pub mod Values
pub mod Check
pub mod Format
pub mod Bag
