-- ===== src/Access/Rules.antt =====
-- The rules of internal/engine/acl.go, said without its code: which names are for administrators, which
-- are refused to a read-only user, and which keys a pattern admits.
use vortexkv.Prelude.{
  ℕ, ◌≡◌, ◌∙◌, refl, sym, ap, inl, if◌then◌else◌, inr, Bool, true, false, ◌&&◌, ◌||◌, List, [], ◌∷◌,
  Bytes, bytes, bytes_key, bytes_eq, length, take, drop, ◌==◌, ◌-◌, arith, Bool-cases, le→leb,
  bytes_eq_iff,
}
use vortexkv.Access.{
  one_of, admin_commands, mutating_commands, trim_tilde, has_prefix, star_prefix,
  matches_any_pattern,
}

abbrev pub among : Bytes → List Bytes → Bool
among name [] = false
among name (n ∷ ns) = bytes_eq n name || among name ns

-- The names for administrators only.
abbrev pub administrators_names : List Bytes
administrators_names =
    bytes "FLUSHDB"
    ∷ bytes "FLUSHALL"
    ∷ bytes "CONFIG"
    ∷ bytes "SHUTDOWN"
    ∷ bytes "BGREWRITEAOF"
    ∷ []

-- The names that a read-only user is refused.
abbrev pub refused_to_readers : List Bytes
refused_to_readers =
    bytes "SET"
    ∷ bytes "SETEX"
    ∷ bytes "SETNX"
    ∷ bytes "MSET"
    ∷ bytes "DEL"
    ∷ bytes "INCR"
    ∷ bytes "INCRBY"
    ∷ bytes "DECR"
    ∷ bytes "DECRBY"
    ∷ bytes "LPUSH"
    ∷ bytes "RPUSH"
    ∷ bytes "LPOP"
    ∷ bytes "RPOP"
    ∷ bytes "HSET"
    ∷ bytes "HMSET"
    ∷ bytes "HDEL"
    ∷ bytes "HINCRBY"
    ∷ bytes "SADD"
    ∷ bytes "SREM"
    ∷ bytes "ZADD"
    ∷ bytes "ZREM"
    ∷ bytes "ZINCRBY"
    ∷ bytes "VADD"
    ∷ bytes "VDEL"
    ∷ bytes "XADD"
    ∷ bytes "XDEL"
    ∷ bytes "XTRIM"
    ∷ bytes "XGROUP"
    ∷ bytes "XACK"
    ∷ bytes "EXPIRE"
    ∷ bytes "EXPIREAT"
    ∷ bytes "SAVE"
    ∷ bytes "BGSAVE"
    ∷ []

-- A text that ends in a star admits what begins with the text before the star.
abbrev pub star_admits : Bytes → Bytes → Bool
star_admits [] key = false
star_admits (c ∷ []) key = c == b'*'
star_admits (c ∷ d ∷ cs) [] = false
star_admits (c ∷ d ∷ cs) (k ∷ key) = k == c && star_admits (d ∷ cs) key

abbrev pub text_admits : (Bytes → Bytes → Bool) → Bytes → Bytes → Bool
text_admits matches text key = matches text key || star_admits text key

-- The tilde that a pattern may begin with is not part of its text. (A star alone admits every key.)
abbrev pub admits : (Bytes → Bytes → Bool) → Bytes → Bytes → Bool
admits matches [] key = text_admits matches [] key
admits matches (c ∷ cs) key =
    if c == b'~' then text_admits matches cs key else text_admits matches (c ∷ cs) key

abbrev pub some_admits : (Bytes → Bytes → Bool) → List Bytes → Bytes → Bool
some_admits matches [] key = false
some_admits matches (p ∷ ps) key = admits matches p key || some_admits matches ps key

abbrev pub all_admitted : (Bytes → Bytes → Bool) → List Bytes → List Bytes → Bool
all_admitted matches patterns [] = true
all_admitted matches patterns (key ∷ keys) =
    some_admits matches patterns key && all_admitted matches patterns keys

-- `one_of` over the program's two lists.
one_of-among : (ns : List Bytes) (name : Bytes) → one_of ns name ≡ among name ns
one_of-among [] name = refl
one_of-among (n ∷ ns) name = ap (λ b. bytes_eq n name || b) (one_of-among ns name)

pub one_of-admin_commands :
    (name : Bytes) → one_of admin_commands name ≡ among name administrators_names
one_of-admin_commands name = one_of-among admin_commands name

pub one_of-mutating_commands :
    (name : Bytes) → one_of mutating_commands name ≡ among name refused_to_readers
one_of-mutating_commands name = one_of-among mutating_commands name

has_prefix-nil : (key : Bytes) → has_prefix key [] ≡ true
unfolding bytes_eq
has_prefix-nil key = ground arith

has_prefix-nil_cons : (c : ℕ) (prefix : Bytes) → has_prefix [] (c ∷ prefix) ≡ false
has_prefix-nil_cons c prefix = ground arith

has_prefix-cons :
    (k c : ℕ) (key prefix : Bytes)
    → has_prefix (k ∷ key) (c ∷ prefix) ≡ (k == c && has_prefix key prefix)
unfolding bytes_eq
has_prefix-cons k c key prefix = ground arith

-- The prefix is compared from the front and the star is looked for at the end.
star_at :
    (c : ℕ) (cs key : Bytes)
    → (bytes_eq (drop (length cs) (c ∷ cs)) (bytes "*")
        && has_prefix key (take (length cs) (c ∷ cs)))
      ≡ star_admits (c ∷ cs) key
unfolding bytes_eq
star_at c [] key = rw (has_prefix-nil key) (ground arith)
star_at c (d ∷ cs) [] = rw (has_prefix-nil_cons c (take (length cs) (d ∷ cs))) (ground arith)
star_at c (d ∷ cs) (k ∷ key) =
    rw (has_prefix-cons k c key (take (length cs) (d ∷ cs)), ← star_at d cs key) (ground arith)

star_prefix_lem : (text key : Bytes) → star_prefix text key ≡ star_admits text key
star_prefix_lem [] key = refl
star_prefix_lem (c ∷ cs) key = rw (le→leb 1 (length (c ∷ cs)) (omega arith)) (
    ap (λ n. bytes_eq (drop n (c ∷ cs)) (bytes "*") && has_prefix key (take n (c ∷ cs)))
      {x = length (c ∷ cs) - 1} {y = length cs} (omega arith)
    ∙ star_at c cs key)

module _ (matches : Bytes → Bytes → Bool) where
  admits-trim :
      (p key : Bytes)
      → admits matches p key ≡ (matches (trim_tilde p) key || star_prefix (trim_tilde p) key)
  admits-trim [] key = refl
  admits-trim (c ∷ cs) key = elim (Bool-cases (c == b'~')) [
    | inl tilde ↦ rw tilde (ap (λ b. matches cs key || b) (sym (star_prefix_lem cs key)))
    | inr plain ↦
        rw plain (ap (λ b. matches (c ∷ cs) key || b) (sym (star_prefix_lem (c ∷ cs) key)))
  ]

  -- The two patterns that are tried first.
  admits-star : (p key : Bytes) → p ≡ bytes "*" → admits matches p key ≡ true
  admits-star p key h = rw h (ground arith)

  admits-tilde_star : (p key : Bytes) → p ≡ bytes "~*" → admits matches p key ≡ true
  admits-tilde_star p key h = rw h (ground arith)

  pub matches_any_pattern_lem :
      (to_upper : Bytes → Bytes) (key : Bytes) (patterns : List Bytes)
      → matches_any_pattern to_upper matches key patterns ≡ some_admits matches patterns key
  unfolding matches_any_pattern
  matches_any_pattern_lem to_upper key [] = refl
  matches_any_pattern_lem to_upper key (p ∷ ps) =
      let later = matches_any_pattern_lem to_upper key ps in
      elim (Bool-cases (bytes_eq p (bytes "*"))) [
        | inl star ↦ rw (star, admits-star p key ((bytes_eq_iff p (bytes "*")).0 star)) refl
        | inr unlike ↦ elim (Bool-cases (bytes_eq p (bytes "~*"))) [
          | inl star ↦
              rw (unlike, star, admits-tilde_star p key ((bytes_eq_iff p (bytes "~*")).0 star)) refl
          | inr other ↦ rw (unlike, other, admits-trim p key) (ground (arith, later))
        ]
      ]
