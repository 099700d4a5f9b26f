-- ===== src/Core/Id.antt =====
-- crates/ovid-core/src/id.rs: identifiers `<kind>:<token>`. The clock (milliseconds since the epoch,
-- clamped at 0) is an argument of `next`.
pub mod Sorted
use ovid.Prelude.{
  ℕ, zero, suc, ◌+◌, ◌/◌, ◌%◌, ◌^◌, Bool, true, false, Option, none, some, List, [], ◌∷◌, ◌++◌,
  Text, lit, get_elem?, unwrap_or, nat_beq, if◌then◌else◌,
}

abbrev pub OvidId : Type 0
OvidId = Text

unfoldable pub crockford : Text
crockford = lit "0123456789ABCDEFGHJKMNPQRSTVWXYZ"

-- `CROCKFORD[i]`
digit_at : ℕ → ℕ
unfolding crockford
digit_at i = unwrap_or (get_elem? crockford i) 0

-- `CROCKFORD[(value & 0x1f) as usize]`; the index is below 32, the table's length.
digit : ℕ → ℕ
unfolding digit_at
digit value = digit_at (value % 32)

-- The loop fills the `width` slots from the last to the first.
unfoldable pub encode_base32 : ℕ → ℕ → Text
unfolding digit
encode_base32 value zero = []
encode_base32 value (suc width) = encode_base32 (value / 32) width ++ (digit value ∷ [])

pub record IdGenerator : Type 0 where
  pub counter : ℕ
  pub deterministic : Bool

-- `IdGenerator::new` and `IdGenerator::deterministic`
abbrev pub new : IdGenerator
new = record { counter = 0; deterministic = false }

abbrev pub new_deterministic : IdGenerator
new_deterministic = record { counter = 0; deterministic = true }

abbrev pub token : ℕ → ℕ → Text
token millis n = encode_base32 millis 10 ++ encode_base32 n 8

-- `fetch_add` on an `AtomicU64` wraps.
unfoldable pub next : IdGenerator → Text → ℕ → OvidId × IdGenerator
next g kind now =
    let millis = if g.deterministic then 0 else now in
    (kind ++ (lit ":" ++ token millis g.counter), record g { counter = (g.counter + 1) % 2 ^ 64 })

-- `split(':').next()`
unfoldable pub kind : OvidId → Text
kind [] = []
kind (c ∷ s) = let rest = kind s in if nat_beq c b':' then [] else c ∷ rest
