-- ===== src/Enforce/Recording.antt =====
-- crates/enforce/src/recording.rs: `RecordingEnforcer`, which keeps the calls made to it.
use usg_authenticator.Prelude.{
  ◌≡◌, ap, ◌∙◌, List, [], ◌∷◌, ◌++◌, append_assoc, append-nil, sym, Text, Bool, false,
  if◌then◌else◌, Result, ok, arith,
}
use usg_authenticator.Pae.Effect.{PortAuthorization}
use usg_authenticator.Enforce.{Target}

pub data Call : Type 0 where
  ensure_eapol_trap : Text → Call
  apply : Text → Target → PortAuthorization → Call

pub record RecordingEnforcer : Type 0 where
  pub poisoned : Bool
  pub recorded : List Call

abbrev pub new : RecordingEnforcer
new = record { poisoned = false; recorded = [] }

unfoldable pub calls : RecordingEnforcer → List Call
calls r = if r.poisoned then [] else r.recorded

unfoldable pub push : Call → RecordingEnforcer → RecordingEnforcer
push call r = if r.poisoned then r else record r { recorded = r.recorded ++ (call ∷ []) }

-- The two methods of `Enforcer`, which never fail.
abbrev pub answer : Call → RecordingEnforcer → RecordingEnforcer × Result ⊥ (Unit {0})
answer call r = (push call r, ok tt)

abbrev pub handle_all : List Call → RecordingEnforcer → RecordingEnforcer
handle_all [] r = r
handle_all (c ∷ cs) r = handle_all cs (answer c r).0

calls-push :
    (c : Call) (r : RecordingEnforcer)
    → r.poisoned ≡ false
    → (calls (push c r) ≡ calls r ++ (c ∷ [])) × ((push c r).poisoned ≡ false)
unfolding calls push
calls-push c r h = ground arith

-- The calls that are read back are those that were made before and those made since, in their order.
pub calls-handle_all :
    (cs : List Call) (r : RecordingEnforcer)
    → r.poisoned ≡ false
    → calls (handle_all cs r) ≡ calls r ++ cs
calls-handle_all [] r h = sym (append-nil (calls r))
calls-handle_all (c ∷ cs) r h =
    let first = calls-push c r h in
    calls-handle_all cs (push c r) first.1
    ∙ ap (λ l. l ++ cs) first.0
    ∙ append_assoc (calls r) (c ∷ []) cs
