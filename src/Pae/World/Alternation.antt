-- ===== src/Pae/World/Alternation.antt =====
-- crates/pae/src/session.rs: the order of the accounting that a session asks for.
use usg_authenticator.Prelude.{◌≡◌, List, [], ◌∷◌, ◌++◌, Bool, true, false, arith}
use usg_authenticator.Pae.Effect.{AcctTrigger, start, stop, Effect, accounting}
use usg_authenticator.Pae.World.{World, fault, perform, perform_all}
use usg_authenticator.Pae.World.Consistent.{ledger_of}

-- The accounting requests among effects, in order.
abbrev pub accountings : List Effect → List AcctTrigger
accountings [] = []
accountings (accounting t ∷ fx) = t ∷ accountings fx
accountings (_ ∷ fx) = accountings fx

-- From open or not to open or not, each start is outside of an accounting session and opens one, and
-- each stop is in one and closes it.
abbrev pub Alternates : Bool → List AcctTrigger → Bool → Type 0
Alternates before [] after = before ≡ after
Alternates false (start ∷ ts) after = Alternates true ts after
Alternates true (stop c ∷ ts) after = Alternates false ts after
Alternates _ _ after = ⊥

pub Alternates-append :
    (xs ys : List Effect) (o p q : Bool)
    → Alternates o (accountings xs) p
    → Alternates p (accountings ys) q
    → Alternates o (accountings (xs ++ ys)) q
Alternates-append [] ys o p q h k = ground arith
Alternates-append (accounting start ∷ xs) ys false p q h k = Alternates-append xs ys true p q h k
Alternates-append (accounting (stop c) ∷ xs) ys true p q h k = Alternates-append xs ys false p q h k
Alternates-append (accounting start ∷ xs) ys true p q h k = absurd h
Alternates-append (accounting (stop c) ∷ xs) ys false p q h k = absurd h
Alternates-append (x ∷ xs) ys o p q h k = Alternates-append xs ys o p q h k

fault_stays : (fx : List Effect) (w : World) → w.ledger ≡ fault → (perform_all fx w).ledger ≡ fault
fault_stays [] w h = h
fault_stays (e ∷ fx) w h = fault_stays fx (perform e w) (ground arith)

pub Alternates-perform_all :
    (fx : List Effect) (w : World) (o p : Bool)
    → w.ledger ≡ ledger_of o
    → (perform_all fx w).ledger ≡ ledger_of p
    → Alternates o (accountings fx) p
Alternates-perform_all [] w o p h k = ground arith
Alternates-perform_all (accounting start ∷ fx) w false p h k =
    Alternates-perform_all fx (perform (accounting start) w) true p (ground arith) k
Alternates-perform_all (accounting (stop c) ∷ fx) w true p h k =
    Alternates-perform_all fx (perform (accounting (stop c)) w) false p (ground arith) k
Alternates-perform_all (accounting start ∷ fx) w true p h k =
    ground (arith, fault_stays fx (perform (accounting start) w))
Alternates-perform_all (accounting (stop c) ∷ fx) w false p h k =
    ground (arith, fault_stays fx (perform (accounting (stop c)) w))
Alternates-perform_all (e ∷ fx) w o p h k =
    Alternates-perform_all fx (perform e w) o p (ground arith) k
