-- ===== src/Base/Orders.antt =====
-- Total orders on sort keys, by their strict test: strings, integers, and pairs of keys.
use s3pgstore.Base.{
  ℕ, ◌≡◌, Bool, true, false, ◌||◌, ◌&&◌, not, arith, ltb, Bytes, bytes_ltb, bytes_lt_asymm,
  bytes_lt_trans, bytes_lt_connex,
}
use s3pgstore.Base.Int.{ℤ, int_ltb, int_lt_asymm, int_lt_trans, int_lt_connex}

pub record StrictOrder {ℓ} (K : Type ℓ) : Type ℓ where
  pub lt : K → K → Bool
  pub lt_asymm : (a b : K) → lt a b ≡ true → lt b a ≡ false
  pub lt_trans : (a b c : K) → lt a b ≡ true → lt b c ≡ true → lt a c ≡ true
  pub lt_connex : (a b : K) → lt a b ≡ false → lt b a ≡ false → a ≡ b

-- "Not greater" is transitive.
pub not_lt_trans {ℓ} :
    {K : Type ℓ} (o : StrictOrder K) (a b c : K)
    → o.lt b a ≡ false
    → o.lt c b ≡ false
    → o.lt c a ≡ false
not_lt_trans o a b c p q = ground (arith, o.lt_connex a b, o.lt_trans c a b, o.lt_trans b c a)

pub lt_irrefl {ℓ} : {K : Type ℓ} (o : StrictOrder K) (a : K) → o.lt a a ≡ false
lt_irrefl o a = ground (arith, o.lt_asymm a a)

pub nat_lt_asymm : (a b : ℕ) → ltb a b ≡ true → ltb b a ≡ false
nat_lt_asymm a b h = ground arith

pub nat_lt_trans : (a b c : ℕ) → ltb a b ≡ true → ltb b c ≡ true → ltb a c ≡ true
nat_lt_trans a b c p q = ground arith

pub nat_lt_connex : (a b : ℕ) → ltb a b ≡ false → ltb b a ≡ false → a ≡ b
nat_lt_connex a b p q = ground arith

abbrev pub nat_order : StrictOrder ℕ
nat_order = record {
  lt = ltb;
  lt_asymm = nat_lt_asymm;
  lt_trans = nat_lt_trans;
  lt_connex = nat_lt_connex;
}

abbrev pub bytes_order : StrictOrder Bytes
bytes_order = record {
  lt = bytes_ltb;
  lt_asymm = bytes_lt_asymm;
  lt_trans = bytes_lt_trans;
  lt_connex = bytes_lt_connex;
}

abbrev pub int_order : StrictOrder ℤ
int_order = record {
  lt = int_ltb;
  lt_asymm = int_lt_asymm;
  lt_trans = int_lt_trans;
  lt_connex = int_lt_connex;
}

-- Pairs, the first component first.
module _ {ℓ} {K L : Type ℓ} (o : StrictOrder K) (p : StrictOrder L) where
  abbrev pub lex_lt : K × L → K × L → Bool
  lex_lt (a, x) (b, y) = o.lt a b || not (o.lt b a) && p.lt x y

  pub lex_lt_asymm : (a b : K × L) → lex_lt a b ≡ true → lex_lt b a ≡ false
  lex_lt_asymm (a, x) (b, y) h = ground (arith, o.lt_asymm a b, p.lt_asymm x y)

  pub lex_lt_trans : (a b c : K × L) → lex_lt a b ≡ true → lex_lt b c ≡ true → lex_lt a c ≡ true
  lex_lt_trans (a, x) (b, y) (c, z) h k = ground (
    arith,
    o.lt_trans a b c,
    o.lt_trans c a b,
    o.lt_trans b c a,
    o.lt_connex a b,
    o.lt_connex b c,
    o.lt_asymm a b,
    o.lt_asymm b c,
    p.lt_trans x y z,
  )

  pub lex_lt_connex : (a b : K × L) → lex_lt a b ≡ false → lex_lt b a ≡ false → a ≡ b
  lex_lt_connex (a, x) (b, y) h k = ground (arith, o.lt_connex a b, p.lt_connex x y)

  abbrev pub lex_order : StrictOrder (K × L)
  lex_order = record {
    lt = lex_lt;
    lt_asymm = lex_lt_asymm;
    lt_trans = lex_lt_trans;
    lt_connex = lex_lt_connex;
  }
