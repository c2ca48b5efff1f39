-- ===== src/Pae/Port/WellFormed.antt =====
-- crates/pae/src/port.rs: the sessions of a port are live, of different stations, and no more than
-- the host mode admits.
use usg_authenticator.Prelude.{
  ℕ, suc, ◌≤◌, ◌≡◌, ◌≢◌, ◌↔◌, refl, sym, ◌∙◌, List, [], ◌∷◌, ◌++◌, true, false, Option, none, some,
  arith, All, length, length-append, Bool-cases, Option-cases, inl, inr,
}
use native.Mathlib.Numerals.{add-one}
use usg_authenticator.Pacp.Ethernet.{MacAddr, mac_eq_iff}
use usg_authenticator.Pae.Config.{HostMode, PaeConfig}
use usg_authenticator.Pae.Event.{Event, enable}
use usg_authenticator.Pae.Session.{PortSession, State, is_new, new_session}
use usg_authenticator.Pae.Step.{step, by_state}
use usg_authenticator.Pae.Port.{
  PortPae, find, replace, prune, active_sessions, can_admit, max_sessions, first_contact, admit,
  handle,
}

by_state-mac :
    (t : State) (s : PortSession) (e : Event) (cfg : PaeConfig) → (by_state t s e cfg).0.mac ≡ s.mac
unfolding by_state
by_state-mac t s e cfg = ground arith

pub step-mac : (s : PortSession) (e : Event) (cfg : PaeConfig) → (step s e cfg).0.mac ≡ s.mac
unfolding step
step-mac s e cfg = ground arith

pub first_contact-mac :
    (mac : MacAddr) (e : Event) (cfg : PaeConfig) → (first_contact mac e cfg).0.mac ≡ mac
unfolding first_contact new_session
first_contact-mac mac e cfg = ground (
  arith,
  step-mac (new_session mac) enable cfg,
  step-mac (step (new_session mac) enable cfg).0 e cfg,
)

abbrev pub macs : List PortSession → List MacAddr
macs [] = []
macs (s ∷ ss) = s.mac ∷ macs ss

abbrev pub Absent : MacAddr → List MacAddr → Type 0
Absent mac [] = Unit
Absent mac (m ∷ ms) = (m ≢ mac) × Absent mac ms

abbrev pub Distinct : List MacAddr → Type 0
Distinct [] = Unit
Distinct (m ∷ ms) = Absent m ms × Distinct ms

abbrev pub IsLive : PortSession → Type 0
IsLive s = is_new s.state ≡ false

-- At most as many as `max_sessions` says; no bound where it says nothing.
abbrev pub Within : Option ℕ → ℕ → Type 0
Within (some k) n = n ≤ k
Within none n = Unit

pub record WellFormed (p : PortPae) : Type 0 where
  pub are_live : All IsLive p.sessions
  pub distinct : Distinct (macs p.sessions)
  pub within : Within (max_sessions p.cfg.host_mode) (length p.sessions)

pub find-Absent :
    (mac : MacAddr) (ss : List PortSession) → find mac ss ≡ none → Absent mac (macs ss)
unfolding find
find-Absent mac [] h = tt
find-Absent mac (s ∷ ss) h = ground (arith, mac_eq_iff s.mac mac, find-Absent mac ss)

Absent-append :
    (mac : MacAddr) (ss : List PortSession) (t : PortSession)
    → Absent mac (macs ss)
    → t.mac ≢ mac
    → Absent mac (macs (ss ++ (t ∷ [])))
Absent-append mac [] t a n = (n, tt)
Absent-append mac (s ∷ ss) t (h, a) n = (h, Absent-append mac ss t a n)

Distinct-append :
    (ss : List PortSession) (t : PortSession)
    → Distinct (macs ss)
    → Absent t.mac (macs ss)
    → Distinct (macs (ss ++ (t ∷ [])))
Distinct-append [] t d a = (tt, tt)
Distinct-append (s ∷ ss) t (fresh, d) (h, a) =
    (Absent-append s.mac ss t fresh (λ e. h (sym e)), Distinct-append ss t d a)

macs-replace :
    (mac : MacAddr) (t : PortSession) (ss : List PortSession)
    → t.mac ≡ mac
    → macs (replace mac t ss) ≡ macs ss
unfolding replace
macs-replace mac t [] h = refl
macs-replace mac t (s ∷ ss) h = ground (arith, mac_eq_iff s.mac mac, macs-replace mac t ss h)

pub length-replace :
    (mac : MacAddr) (t : PortSession) (ss : List PortSession)
    → length (replace mac t ss) ≡ length ss
unfolding replace
length-replace mac t [] = refl
length-replace mac t (s ∷ ss) = ground (arith, length-replace mac t ss)

Absent-prune :
    (mac : MacAddr) (ss : List PortSession) → Absent mac (macs ss) → Absent mac (macs (prune ss))
unfolding prune
Absent-prune mac [] a = tt
Absent-prune mac (s ∷ ss) a = ground (arith, Absent-prune mac ss)

Distinct-prune : (ss : List PortSession) → Distinct (macs ss) → Distinct (macs (prune ss))
unfolding prune
Distinct-prune [] d = tt
Distinct-prune (s ∷ ss) d = ground (arith, Distinct-prune ss, Absent-prune s.mac ss)

prune-IsLive : (ss : List PortSession) → All IsLive (prune ss)
unfolding prune
prune-IsLive [] = tt
prune-IsLive (s ∷ ss) = ground (arith, prune-IsLive ss)

pub length-prune-le : (ss : List PortSession) → length (prune ss) ≤ length ss
unfolding prune
length-prune-le [] = omega arith
length-prune-le (s ∷ ss) = ground (arith, length-prune-le ss)

pub prune_live : (ss : List PortSession) → All IsLive ss → prune ss ≡ ss
unfolding prune
prune_live [] h = refl
prune_live (s ∷ ss) h = ground (arith, prune_live ss)

pub active_sessions_live : (ss : List PortSession) → All IsLive ss → active_sessions ss ≡ length ss
unfolding active_sessions
active_sessions_live [] h = refl
active_sessions_live (s ∷ ss) h = ground (arith, active_sessions_live ss)

pub handle-cfg : (p : PortPae) (mac : MacAddr) (e : Event) → (handle p mac e).0.cfg ≡ p.cfg
unfolding handle admit
handle-cfg p mac e = grind arith

-- The gate and the bound say the same.
pub can_admit-Within :
    (mode : HostMode) (n : ℕ) → (can_admit mode n ≡ true) ↔ Within (max_sessions mode) (suc n)
unfolding can_admit max_sessions
can_admit-Within mode n = ground arith

Within-le : (k : Option ℕ) (m n : ℕ) → m ≤ n → Within k n → Within k m
Within-le k m n h w = ground arith

pruned-WellFormed :
    (p : PortPae)
    → Distinct (macs p.sessions)
    → Within (max_sessions p.cfg.host_mode) (length p.sessions)
    → WellFormed (record p { sessions = prune p.sessions })
pruned-WellFormed p d w = record {
  are_live = prune-IsLive p.sessions;
  distinct = Distinct-prune p.sessions d;
  within = Within-le _ _ _ (length-prune-le p.sessions) w;
}

pub find-mac :
    (mac : MacAddr) (ss : List PortSession) (s : PortSession) → find mac ss ≡ some s → s.mac ≡ mac
unfolding find
find-mac mac [] s h = cc
find-mac mac (r ∷ ss) s h = ground (arith, mac_eq_iff r.mac mac, find-mac mac ss s)

module _ (p : PortPae) (mac : MacAddr) (h : WellFormed p) where
  served-WellFormed :
      (s t : PortSession)
      → find mac p.sessions ≡ some s
      → t.mac ≡ s.mac
      → WellFormed (record p { sessions = prune (replace mac t p.sessions) })
  served-WellFormed s t found same =
      pruned-WellFormed (record p { sessions = replace mac t p.sessions })
        (rw (macs-replace mac t p.sessions (same ∙ find-mac mac p.sessions s found)) h.distinct)
        (rw (length-replace mac t p.sessions) h.within)

  admitted-WellFormed :
      (t : PortSession)
      → t.mac ≡ mac
      → find mac p.sessions ≡ none
      → can_admit p.cfg.host_mode (active_sessions p.sessions) ≡ true
      → WellFormed (record p { sessions = prune (p.sessions ++ (t ∷ [])) })
  admitted-WellFormed t same absent room =
      pruned-WellFormed (record p { sessions = p.sessions ++ (t ∷ []) })
        (Distinct-append p.sessions t h.distinct (rw same (find-Absent mac p.sessions absent)))
        (rw (length-append p.sessions (t ∷ []), add-one)
          ((can_admit-Within p.cfg.host_mode (length p.sessions)).0
            (rw (active_sessions_live p.sessions h.are_live) at room)))

-- Whatever event comes from whatever station, a well-formed port stays well formed: no torn down
-- session stays behind, no station has two sessions, and the bound of the host mode holds.
pub handle-WellFormed :
    (p : PortPae) (mac : MacAddr) (e : Event) → WellFormed p → WellFormed (handle p mac e).0
unfolding handle admit
handle-WellFormed p mac e h = elim (Option-cases (find mac p.sessions)) [
  | inr (s, found) ↦
      rw found (served-WellFormed p mac h s (step s e p.cfg).0 found (step-mac s e p.cfg))
  | inl absent ↦ elim (Bool-cases (can_admit p.cfg.host_mode (active_sessions p.sessions))) [
    | inl room ↦
        rw (absent, room)
          (admitted-WellFormed p mac h (first_contact mac e p.cfg).0 (first_contact-mac mac e p.cfg)
            absent room)
    | inr full ↦ rw (absent, full) (pruned-WellFormed p h.distinct h.within)
  ]
]
