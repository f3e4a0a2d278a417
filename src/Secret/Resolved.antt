-- ===== src/Secret/Resolved.antt =====
-- Sequences of calls of `resolve` on one registry, and redaction after them.
use quire.Prelude.{◌≤◌, String, ◌≡◌, false, List, [], ◌∷◌, arith, length, bytes_eq}
use quire.Prelude.Bytes.{Bytes, occurs}
use quire.Secret.{Outcome, value, ReadResult, SecretRegistry, resolve, redact}
use quire.Secret.Hidden.{IsPlain}
use quire.Secret.Pinned.{Held, Held-resolve, resolve-Held, Held-value}
use quire.Secret.Redaction.{IsUnnamed, redact_hides}

-- One call of `resolve`, with what the disk and the fetcher are at the time.
pub record Call : Type 0 where
  pub disk : String → ReadResult
  pub fetcher : Bytes → Outcome
  pub name : Bytes

unfoldable pub resolve_all : List Call → SecretRegistry → SecretRegistry
resolve_all [] r = r
resolve_all (c ∷ cs) r = resolve_all cs (resolve c.disk c.fetcher c.name r).1

Held-resolve_all :
    (cs : List Call) (name v : Bytes) (r : SecretRegistry)
    → Held name v r
    → Held name v (resolve_all cs r)
unfolding resolve_all
Held-resolve_all [] name v r h = h
Held-resolve_all (c ∷ cs) name v r h =
    Held-resolve_all cs name v _ (Held-resolve c.disk c.fetcher name v c.name r h)

-- Once a name was resolved to a value, it resolves to that value after any calls for any names,
-- whatever becomes of the disk and of the fetcher.
pub resolve_pinned :
    (disk disk' : String → ReadResult) (fetcher fetcher' : Bytes → Outcome) (cs : List Call)
    (name v : Bytes) (r : SecretRegistry)
    → (resolve disk fetcher name r).0 ≡ value v
    → (resolve disk' fetcher' name (resolve_all cs (resolve disk fetcher name r).1)).0 ≡ value v
resolve_pinned disk disk' fetcher fetcher' cs name v r h =
    Held-value disk' fetcher' name v _
      (Held-resolve_all cs name v _ (resolve-Held disk fetcher name v r h))

-- A value of at least eight bytes to which a name was resolved is nowhere in a text that is
-- redacted after any further calls, if it has no brace and does not occur in what is written for a
-- name that is registered by then.
pub resolved_hides :
    (disk : String → ReadResult) (fetcher : Bytes → Outcome) (cs : List Call) (name v text : Bytes)
    (r : SecretRegistry)
    → (resolve disk fetcher name r).0 ≡ value v
    → 8 ≤ length v
    → IsPlain v
    → IsUnnamed v (resolve_all cs (resolve disk fetcher name r).1).revealed
    → occurs v (redact text (resolve_all cs (resolve disk fetcher name r).1)) ≡ false
resolved_hides disk fetcher cs name v text r h long p u =
    redact_hides _ name v text
      ((Held-resolve_all cs name v _ (resolve-Held disk fetcher name v r h)).registered
        (ground arith))
      (omega arith) p u
