-- ===== src/Pae/World/Below.antt =====
-- crates/pae: what one session's effects ask for, compared with what a boundary keeps.
use usg_authenticator.Prelude.{◌≡◌, refl, List, [], ◌∷◌, ◌++◌, Bool, true, false, arith}
use usg_authenticator.Pae.Effect.{Effect}
use usg_authenticator.Pae.Event.{Event}
use usg_authenticator.Pae.World.{World, Timers, perform_all, expired}

abbrev pub Implied : Bool → Bool → Type 0
Implied true b = b ≡ true
Implied false b = Unit

-- Every timer of `t` but that of the session's lifetime, whose length may be unknown, runs in `u`.
abbrev pub Armed : Timers → Timers → Type 0
Armed t u =
    Implied t.tx_period u.tx_period
    × Implied t.held u.held
    × Implied t.reauth u.reauth
    × Implied t.server_timeout u.server_timeout
    × Implied t.supp_timeout u.supp_timeout

-- The same posture, and no timer that does not run there.
abbrev pub Below : World → World → Type 0
Below v w = (v.posture ≡ w.posture) × Armed v.timers w.timers

Armed-refl : (t : Timers) → Armed t t
Armed-refl t = ground arith

perform-Below :
    (e : Effect) (v w : World) → Below v w → Below (perform_all (e ∷ []) v) (perform_all (e ∷ []) w)
perform-Below e v w h = ground arith

perform_all-Below :
    (fx : List Effect) (v w : World) → Below v w → Below (perform_all fx v) (perform_all fx w)
perform_all-Below [] v w h = h
perform_all-Below (e ∷ fx) v w h =
    perform_all-Below fx (perform_all (e ∷ []) v) (perform_all (e ∷ []) w) (perform-Below e v w h)

-- A timer that is known to have expired asks for no more than if it still ran.
pub expired-Below :
    (e : Event) (fx : List Effect) (w : World)
    → Below (perform_all fx (expired e w)) (perform_all fx w)
expired-Below e fx w = perform_all-Below fx (expired e w) w (ground (arith, Armed-refl w.timers))

pub perform_all-append :
    (fx gx : List Effect) (w : World) → perform_all (fx ++ gx) w ≡ perform_all gx (perform_all fx w)
perform_all-append [] gx w = refl
perform_all-append (e ∷ fx) gx w = perform_all-append fx gx (perform_all (e ∷ []) w)
