-- ===== src/Radsec/Framing/Roundtrip.antt =====
-- crates/radsec/src/framing.rs: a packet on the stream is read whole and nothing behind it.
use usg_authenticator.Prelude.{
  ℕ, ◌+◌, ◌≤◌, ◌≡◌, refl, sym, ap, ◌∙◌, List, [], ◌∷◌, ◌++◌, length, length-append, take, drop, ok,
  arith, take-append_length,
}
use usg_authenticator.Pacp.Octets.{from_be_bytes}
use usg_authenticator.Radius.Proto.{Packet, RadiusProto}
use usg_authenticator.Radsec.Framing.{Wire, declared_length, read_packet}

-- What is relied on of the stream: `read_exact` takes as many octets as it is asked for from those
-- that arrive, if so many arrive.
pub record IsStream (W : Wire) : Type 0 where
  pub arriving : W.Conn → List ℕ
  pub read_exact_lem :
      (n : ℕ) (c : W.Conn)
      → n ≤ length (arriving c)
      → (d : W.Conn) × (W.read_exact n c ≡ (d, ok (take n (arriving c))))
        × (arriving d ≡ drop n (arriving c))

-- A RADIUS packet on the wire: a header that declares the length of the whole, within the bounds.
pub record IsFramed (P : RadiusProto) (p : Packet) (bytes : List ℕ) : Type 0 where
  pub code : ℕ
  pub identifier : ℕ
  pub hi : ℕ
  pub lo : ℕ
  pub body : List ℕ
  pub split : bytes ≡ code ∷ identifier ∷ hi ∷ lo ∷ body
  pub declared : from_be_bytes hi lo ≡ 4 + length body
  pub lower : P.min_packet_size ≤ 4 + length body
  pub upper : 4 + length body ≤ P.max_packet_size
  pub decodes : P.decode bytes ≡ ok p

drop-append_length : (xs ys : List ℕ) → drop (length xs) (xs ++ ys) ≡ ys
drop-append_length [] ys = refl
drop-append_length (x ∷ xs) ys = drop-append_length xs ys

module _ (W : Wire) (S : IsStream W) where
  -- What is asked for arrives first, and is taken off.
  read_exact-append :
      (xs ys : List ℕ) (c : W.Conn)
      → S.arriving c ≡ xs ++ ys
      → (d : W.Conn) × (W.read_exact (length xs) c ≡ (d, ok xs)) × (S.arriving d ≡ ys)
  read_exact-append xs ys c here =
      let (d, e, a) =
        S.read_exact_lem (length xs) c (rw here (omega (arith, length-append xs ys))) in
      (
        d,
        e ∙ ap (λ l. (d, ok l)) (ap (take (length xs)) here ∙ take-append_length xs ys),
        a ∙ (ap (drop (length xs)) here ∙ drop-append_length xs ys),
      )

module _ (P : RadiusProto) (W : Wire) (S : IsStream W) where
  -- On a stream where read_exact takes the octets that arrive, if a packet whose header declares
  -- its length, within the bounds of the codec, arrives first, then read_packet reads that packet
  -- whole and leaves what is behind it.
  pub read_packet-framed :
      (p : Packet) (bytes rest : List ℕ) (c : W.Conn)
      → IsFramed P p bytes
      → S.arriving c ≡ bytes ++ rest
      → (d : W.Conn) × (read_packet P W c ≡ (d, ok p)) × (S.arriving d ≡ rest)
  unfolding read_packet declared_length
  read_packet-framed p bytes rest c f here =
      let header : List ℕ = f.code ∷ f.identifier ∷ f.hi ∷ f.lo ∷ [] in
      let (d, e, a) =
        read_exact-append W S header (f.body ++ rest) c (here ∙ ap (λ l. l ++ rest) f.split) in
      let (d', e', a') = read_exact-append W S f.body rest d a in
      let whole : P.decode (f.code ∷ f.identifier ∷ f.hi ∷ f.lo ∷ f.body) ≡ ok p =
        ap P.decode (sym f.split) ∙ f.decodes in
      (d', rw e (ground arith), a')
