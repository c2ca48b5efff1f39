-- ===== src/Sonic/Redis/Items.antt =====
-- crates/enforce-sonic/src/redis_conn.rs: a list in a field, its items separated by commas.
use usg_authenticator.Prelude.{
  ℕ, ◌≡◌, ◌≢◌, refl, List, [], ◌∷◌, ◌++◌, Bool, false, not, ◌||◌, ◌&&◌, ◌==◌, if◌then◌else◌, Text,
  text_eq, text_eq_iff, All, arith,
}

abbrev push_char : ℕ → List Text → List Text
push_char c [] = (c ∷ []) ∷ []
push_char c (p ∷ ps) = (c ∷ p) ∷ ps

-- `split(',')`: the empty text has one part, which is empty.
unfoldable pub split : Text → List Text
split [] = [] ∷ []
split (c ∷ cs) = let rest = split cs in if c == b',' then [] ∷ rest else push_char c rest

-- `join(",")`
unfoldable pub join : List Text → Text
join [] = []
join (p ∷ []) = p
join (p ∷ q ∷ ps) = p ++ (b',' ∷ join (q ∷ ps))

-- `filter(|x| !x.is_empty())`
unfoldable pub non_empty : List Text → List Text
non_empty [] = []
non_empty ([] ∷ ps) = non_empty ps
non_empty ((c ∷ p) ∷ ps) = (c ∷ p) ∷ non_empty ps

unfoldable pub contains : Text → List Text → Bool
contains v [] = false
contains v (p ∷ ps) = text_eq p v || contains v ps

-- `filter(|x| *x != value)`
unfoldable pub without : Text → List Text → List Text
without v [] = []
without v (p ∷ ps) = let rest = without v ps in if text_eq p v then rest else p ∷ rest

abbrev pub items : Text → List Text
items s = non_empty (split s)

-- An item that is not empty and holds no comma.
abbrev pub IsPlain : Text → Type 0
IsPlain [] = ⊥
IsPlain (c ∷ cs) = All (λ d. d ≢ b',') (c ∷ cs)

split-plain : (p : Text) → All (λ d. d ≢ b',') p → split p ≡ p ∷ []
unfolding split
split-plain [] h = refl
split-plain (c ∷ p) h = ground (arith, split-plain p)

split-append : (p rest : Text) → All (λ d. d ≢ b',') p → split (p ++ (b',' ∷ rest)) ≡ p ∷ split rest
unfolding split
split-append [] rest h = ground arith
split-append (c ∷ p) rest h = ground (arith, split-append p rest)

lacks_comma : (p : Text) → IsPlain p → All (λ d. d ≢ b',') p
lacks_comma [] h = tt
lacks_comma (c ∷ p) h = h

non_empty-plain : (p : Text) (ps : List Text) → IsPlain p → non_empty (p ∷ ps) ≡ p ∷ non_empty ps
unfolding non_empty
non_empty-plain [] ps h = absurd h
non_empty-plain (c ∷ p) ps h = refl

pub items-join : (ps : List Text) → All IsPlain ps → items (join ps) ≡ ps
unfolding join
items-join [] h = unfold split non_empty in refl
items-join (p ∷ []) h =
    rw (split-plain p (lacks_comma p h.0), non_empty-plain p [] h.0) (unfold non_empty in refl)
items-join (p ∷ q ∷ ps) h = rw (
  split-append p (join (q ∷ ps)) (lacks_comma p h.0),
  non_empty-plain p (split (join (q ∷ ps))) h.0,
  items-join (q ∷ ps) h.1,
)

split-parts : (s : Text) → All (λ p. All (λ d. d ≢ b',') p) (split s)
unfolding split
split-parts [] = (tt, tt)
split-parts (c ∷ s) = ground (arith, push_char-parts c (split s), split-parts s)
  where
    push_char-parts :
        (d : ℕ) (ps : List Text)
        → d ≢ b','
        → All (λ p. All (λ e. e ≢ b',') p) ps
        → All (λ p. All (λ e. e ≢ b',') p) (push_char d ps)
    push_char-parts d [] n h = ((n, tt), tt)
    push_char-parts d (p ∷ ps) n h = ((n, h.0), h.1)

non_empty-IsPlain :
    (ps : List Text) → All (λ p. All (λ d. d ≢ b',') p) ps → All IsPlain (non_empty ps)
unfolding non_empty
non_empty-IsPlain [] h = tt
non_empty-IsPlain ([] ∷ ps) h = non_empty-IsPlain ps h.1
non_empty-IsPlain ((c ∷ p) ∷ ps) h = (h.0, non_empty-IsPlain ps h.1)

pub items-IsPlain : (s : Text) → All IsPlain (items s)
items-IsPlain s = non_empty-IsPlain (split s) (split-parts s)

pub contains-append :
    (v x : Text) (ps : List Text) → contains v (ps ++ (x ∷ [])) ≡ contains v ps || text_eq x v
unfolding contains
contains-append v x [] = ground arith
contains-append v x (p ∷ ps) = ground (arith, contains-append v x ps)

pub contains-without :
    (v x : Text) (ps : List Text) → contains v (without x ps) ≡ (contains v ps && not (text_eq x v))
unfolding contains without
contains-without v x [] = refl
contains-without v x (p ∷ ps) =
    ground (arith, contains-without v x ps, text_eq_iff p x, text_eq_iff p v, text_eq_iff x v)

pub without-IsPlain : (x : Text) (ps : List Text) → All IsPlain ps → All IsPlain (without x ps)
unfolding without
without-IsPlain x [] h = tt
without-IsPlain x (p ∷ ps) h = ground (arith, without-IsPlain x ps)

pub append-IsPlain :
    (x : Text) (ps : List Text) → IsPlain x → All IsPlain ps → All IsPlain (ps ++ (x ∷ []))
append-IsPlain x [] h k = (h, tt)
append-IsPlain x (p ∷ ps) h k = (k.0, append-IsPlain x ps h k.1)

pub items-plain : (p : Text) → IsPlain p → items p ≡ p ∷ []
unfolding join
items-plain p h = items-join (p ∷ []) (h, tt)
