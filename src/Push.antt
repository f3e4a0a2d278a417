-- ===== src/Push.antt =====
-- A push: quire-core/src/event.rs. Texts are lists of code points, as for `str::chars`. The hook
-- that sends a push is in `Hook`, the server's handling of it in `Trigger` and `Mirror`.
pub mod Hook
pub mod Trigger
pub mod Mirror
pub mod Local
mod Tests
use quire.Prelude.{ℕ, zero, suc, Bool, not, List, [], ◌∷◌, select, ◌==◌, bytes_eq}
use quire.Prelude.Bytes.{Bytes}

pub record PushRef : Type 0 where
  pub ref_name : Bytes
  pub old_sha : Bytes
  pub new_sha : Bytes

-- `type` is a word of the language, hence `event_type`.
pub record PushEvent : Type 0 where
  pub event_type : Bytes
  pub repo : Bytes
  pub pushed_at : ℕ
  pub refs : List PushRef

abbrev pub zeros : ℕ → Bytes
zeros zero = []
zeros (suc n) = b'0' ∷ zeros n

-- The forty zeros of a deletion.
abbrev pub zero_sha : Bytes
zero_sha = zeros 40

abbrev pub is_update : PushRef → Bool
is_update r = not (r.new_sha == zero_sha)

abbrev pub new_event : Bytes → ℕ → List PushRef → PushEvent
new_event repo now refs = record {
  event_type = b'p' ∷ b'u' ∷ b's' ∷ b'h' ∷ [];
  repo = repo;
  pushed_at = now;
  refs = refs;
}

abbrev pub updated_refs : PushEvent → List PushRef
updated_refs event = select is_update event.refs
