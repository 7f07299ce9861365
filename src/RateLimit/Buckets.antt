-- ===== src/RateLimit/Buckets.antt =====
-- `_take` and the buckets. Python's arithmetic on floats is a parameter, so that nothing is assumed of how it
-- rounds: instants are seconds, and tokens are counted in floats.
pub mod Entries
pub mod Bounded
pub mod Covered
pub mod Budget
use reli.Prelude.{
  ℕ, suc, ◌+◌, String, Bool, true, false, ◌&&◌, not, Option, none, some, List, [], ◌∷◌, ◌++◌, ◌==◌,
  String_equals, if◌then◌else◌, filter, length, leb, ltb,
}

abbrev pub max_buckets : ℕ
max_buckets = 10_000

pub record Tier : Type 0 where
  pub name : String
  pub limit : ℕ

-- `f"user:{subject}"` or `f"addr:{address}"`
pub data Key : Type 0 where
  user addr : String → Key

abbrev pub same_key : Key → Key → Bool
same_key (user a) (user b) = a == b
same_key (addr a) (addr b) = a == b
same_key _ _ = false

-- Python's floats: `+`, `-`, `*`, `/`, `<=`, and `math.floor` and `math.ceil` of those that are not negative.
pub record Floats (F : Type 0) : Type 0 where
  pub of_int : ℕ → F
  pub add : F → F → F
  pub sub : F → F → F
  pub mul : F → F → F
  pub div : F → F → F
  pub at_most : F → F → Bool
  pub floor : F → ℕ
  pub ceil : F → ℕ

pub record Bucket (F : Type 0) : Type 0 where
  pub tokens : F
  pub updated : F
  pub throttled : Bool

pub record Entry (F : Type 0) : Type 0 where
  pub tier : String
  pub key : Key
  pub bucket : Bucket F

abbrev pub longest : ℕ → ℕ → ℕ
longest a b = if leb a b then b else a

-- Whether the request is allowed, the tokens left, and the seconds to wait.
pub record Verdict : Type 0 where
  pub allowed : Bool
  pub remaining : ℕ
  pub retry_after : ℕ

module _ {F : Type 0} where
  abbrev pub is_entry : String → Key → Entry F → Bool
  is_entry tier key e = e.tier == tier && same_key e.key key

  -- `_BUCKETS.get((tier.name, key))`; the least recently used entry comes first.
  abbrev pub find_bucket : String → Key → List (Entry F) → Option (Bucket F)
  find_bucket tier key [] = none
  find_bucket tier key (e ∷ es) =
      if is_entry tier key e then some e.bucket else find_bucket tier key es

  abbrev pub other_entries : String → Key → List (Entry F) → List (Entry F)
  other_entries tier key = filter λ e. not (is_entry tier key e)

  -- `popitem(last=False)`
  abbrev pub drop_first : List (Entry F) → List (Entry F)
  drop_first [] = []
  drop_first (e ∷ es) = es

  -- The entries before a new one, of which there are too many with it.
  abbrev pub room_for_bucket : List (Entry F) → List (Entry F)
  room_for_bucket entries =
      if ltb max_buckets (length entries + 1) then drop_first entries else entries

module _ {F : Type 0} (f : Floats F) where
  abbrev pub rate : Tier → F
  rate tier = f.div (f.of_int tier.limit) (f.of_int 60)

  abbrev pub full_bucket : Tier → F → Bucket F
  full_bucket tier now = record { tokens = f.of_int tier.limit; updated = now; throttled = false }

  -- `min(a, b)`
  abbrev pub least : F → F → F
  least a b = if f.at_most a b then a else b

  abbrev pub refilled : Tier → F → Bucket F → Bucket F
  refilled tier now b = record {
    tokens = least (f.of_int tier.limit) (f.add b.tokens (f.mul (f.sub now b.updated) (rate tier)));
    updated = now;
    throttled = b.throttled;
  }

  -- `bucket.tokens >= 1`
  abbrev pub has_token : Bucket F → Bool
  has_token b = f.at_most (f.of_int 1) b.tokens

  abbrev pub spent : Bucket F → Bucket F
  spent b =
      if has_token b
      then record { tokens = f.sub b.tokens (f.of_int 1); updated = b.updated; throttled = false }
      else record { tokens = b.tokens; updated = b.updated; throttled = true }

  abbrev pub verdict : Tier → Bucket F → Verdict
  verdict tier b =
      if has_token b
      then record {
        allowed = true;
        remaining = f.floor (f.sub b.tokens (f.of_int 1));
        retry_after = 0;
      }
      else record {
        allowed = false;
        remaining = 0;
        retry_after = longest 1 (f.ceil (f.div (f.sub (f.of_int 1) b.tokens) (rate tier)));
      }

  -- The entries besides the request's own, and its bucket before a token is spent.
  abbrev pub drawn_from : Tier → Key → F → List (Entry F) → List (Entry F) × Bucket F
  drawn_from tier key now entries = elim (find_bucket tier.name key entries) [
    | none ↦ (room_for_bucket entries, full_bucket tier now)
    | some b ↦ (other_entries tier.name key entries, refilled tier now b)
  ]

  unfoldable pub take_token : Tier → Key → F → List (Entry F) → Verdict × List (Entry F)
  take_token tier key now entries =
      let (others, b) = drawn_from tier key now entries in
      (verdict tier b, others ++ record { tier = tier.name; key = key; bucket = spent b } ∷ [])
