-- ===== src/Ski/Payload/Packing.antt =====
-- The buffer that PackAndSign makes.
use amp_host_go.Base.{
  ℕ, zero, suc, ◌+◌, ◌-◌, ◌/◌, ◌%◌, ◌≤◌, ◌≡◌, refl, sym, ap, ◌∙◌, false, not, some, [], ◌∷◌, ◌++◌,
  arith, ◌==◌, ltb, if_false, length, take, drop, replicate,
}
use amp_host_go.Base.Bytes.{Bytes}
use amp_host_go.Base.Slices.{take-drop}
use amp_host_go.Ski.Payload.{
  EnclaveSession, PayloadPacker, HashKit, SigHeader, write, append_sig, pack_payload, packed,
  PackingInfo,
}
use amp_host_go.Ski.Payload.Writes.{
  length-write, take-write, take-write_before, slice-write, drop-write, drop-write_after,
}

-- The length of the SigHeader, low byte first.
abbrev pub prefix : Bytes → Bytes
prefix bytes = length bytes % 256 ∷ length bytes / 256 % 256 ∷ []

-- What is hashed.
abbrev pub frame : Bytes → Bytes → Bytes → Bytes
frame bytes header body = prefix bytes ++ bytes ++ header ++ body

length-replicate : (n : ℕ) → length {A = ℕ} (replicate n 0) ≡ n
length-replicate zero = refl
length-replicate (suc n) = omega (arith, length-replicate n)

module _ (bytes header body : Bytes) (buf_sz : ℕ)
    (room : 2 + length bytes + length header + length body ≤ buf_sz) where
  abbrev pub marked : Bytes
  marked = write 0 (prefix bytes) (write 2 bytes (replicate buf_sz 0))

  abbrev pub filled : Bytes
  filled = write (2 + length bytes + length header) body (write (2 + length bytes) header marked)

  abbrev two : Bytes
  two = write 2 bytes (replicate buf_sz 0)

  length_two : length (write 2 bytes (replicate buf_sz 0)) ≡ buf_sz
  length_two =
      length-write 2 bytes (replicate buf_sz 0) (omega (arith, length-replicate buf_sz, room))
      ∙ length-replicate buf_sz

  length-marked : length marked ≡ buf_sz
  length-marked =
      length-write 0 (prefix bytes) (write 2 bytes (replicate buf_sz 0))
        (omega (arith, length_two, room))
      ∙ length_two

  take-marked : take (2 + length bytes) marked ≡ prefix bytes ++ bytes
  take-marked =
      sym (take-drop 2 (length bytes) marked)
      ∙ ap (λ b. b ++ take (length bytes) (drop 2 marked))
          (take-write 0 (prefix bytes) two (omega (arith, length_two, room)))
      ∙ ap (λ b. prefix bytes ++ take (length bytes) b)
          (drop-write 0 (prefix bytes) two (omega (arith, length_two, room)))
      ∙ ap (prefix bytes ++◌)
          (slice-write 2 bytes (replicate buf_sz 0) (omega (arith, length-replicate buf_sz, room)))

  length_headed : length (write (2 + length bytes) header marked) ≡ buf_sz
  length_headed =
      length-write (2 + length bytes) header marked (omega (arith, length-marked, room))
      ∙ length-marked

  pub length-filled : length filled ≡ buf_sz
  length-filled =
      length-write (2 + length bytes + length header) body (write (2 + length bytes) header marked)
        (omega (arith, length_headed, room))
      ∙ length_headed

  pub take-filled :
      take (2 + length bytes + length header + length body) filled ≡ frame bytes header body
  take-filled =
      take-write (2 + length bytes + length header) body (write (2 + length bytes) header marked)
        (omega (arith, length_headed, room))
      ∙ ap (λ b. b ++ body)
          (take-write (2 + length bytes) header marked (omega (arith, length-marked, room))
            ∙ ap (λ b. b ++ header) take-marked)

-- PackAndSign's signature is made over the digest, and stands behind the body.
module _ (session : EnclaveSession) (p : PayloadPacker) (kit : HashKit) (buf : Bytes)
    (pos extra_pos : ℕ) (sig : Bytes) (short_sig : length sig ≤ 99) (behind : pos + 100 ≤ extra_pos)
    (inside : extra_pos + kit.hash_sz ≤ length buf) where
  signed_eq :
      take (pos + 1 + length sig) (write (pos + 1) sig (write pos (length sig ∷ []) buf))
      ≡ take pos buf ++ (length sig ∷ []) ++ sig
  signed_eq =
      let one = length-write pos (length sig ∷ []) buf (omega (arith, inside)) in
      take-write (pos + 1) sig (write pos (length sig ∷ []) buf) (omega (arith, one, inside))
      ∙ ap (λ b. b ++ sig) (take-write pos (length sig ∷ []) buf (omega (arith, inside)))

  pub append_sig_lem :
      session.sign p.signing_key_ref (take kit.hash_sz (drop extra_pos buf)) ≡ some sig
      → (info : PackingInfo) × (append_sig session p kit buf pos extra_pos ≡ packed info)
        × (info.signed_buf ≡ take pos buf ++ (length sig ∷ []) ++ sig)
        × (info.sig ≡ sig)
        × (info.hash ≡ take kit.hash_sz (drop extra_pos buf))
  unfolding append_sig
  append_sig_lem e =
      let small : ltb 255 (length sig) ≡ false = ground (arith, short_sig) in
      let room : ltb (length buf) (pos + 1 + length sig) ≡ false =
        ground (arith, inside, behind, short_sig) in
      (
        info,
        rw (append_sig, e) (if_false _ _ small ∙ if_false _ _ room),
        signed_eq,
        slice-write (pos + 1) sig one (omega (arith, length_one, inside, behind, short_sig)),
        ap (take kit.hash_sz) (
            drop-write_after (pos + 1) sig one
              (omega (arith, length_one, inside, behind, short_sig)) extra_pos
              (omega (arith, behind, short_sig))
            ∙ drop-write_after pos (length sig ∷ []) buf (omega (arith, inside, behind)) extra_pos
                (omega (arith, behind))),
      )
    where
      one : Bytes
      one = write pos (length sig ∷ []) buf

      length_one : length one ≡ length buf
      length_one = length-write pos (length sig ∷ []) buf (omega (arith, inside, behind))

      info : PackingInfo
      info = record {
        signed_buf = take (pos + 1 + length sig) (write (pos + 1) sig one);
        hash = take kit.hash_sz (drop extra_pos (write (pos + 1) sig one));
        sig = take (length sig) (drop (pos + 1) (write (pos + 1) sig one));
        extra = drop (extra_pos + kit.hash_sz) (write (pos + 1) sig one);
      }

module _ (session : EnclaveSession) (p : PayloadPacker) (kit : HashKit) (hdr : SigHeader)
    (bytes header body : Bytes) (extra_alloc : ℕ) (sig : Bytes)
    (digests : (m : Bytes) → length (kit.hasher.digest m) ≡ kit.hash_sz)
    (short_sig : length sig ≤ 99) where
  abbrev sized_hdr : SigHeader
  sized_hdr = record hdr { header_sz = length header; body_sz = length body }

  -- The SigHeader, the header and the body with their lengths, and the signature of their digest.
  pub pack_payload_lem :
      session.sign p.signing_key_ref (kit.hasher.digest (frame bytes header body)) ≡ some sig
      → (info : PackingInfo) × (pack_payload session p kit sized_hdr
            (length bytes)
            bytes
            header
            body
            extra_alloc
          ≡ packed info)
        × (info.signed_buf ≡ frame bytes header body ++ (length sig ∷ []) ++ sig)
        × (info.sig ≡ sig)
        × (info.hash ≡ kit.hasher.digest (frame bytes header body))
  unfolding pack_payload
  pack_payload_lem e =
      let kept_len : (not (length digest == kit.hash_sz)) ≡ false =
        ground (arith, digests (take body_end full)) in
      let (info, returns, signed, sig_eq, hash_eq) =
        append_sig_lem session p kit buf body_end extra_pos sig short_sig (omega arith)
          (omega (arith, length_buf))
          (ap (session.sign p.signing_key_ref) (digest_eq ∙ over) ∙ e) in
      (
        info,
        if_false _ _ kept_len ∙ returns,
        signed ∙ ap (λ b. b ++ (length sig ∷ []) ++ sig) (before ∙ framed),
        sig_eq,
        hash_eq ∙ digest_eq ∙ over,
      )
    where
      extra : ℕ
      extra = extra_alloc + kit.hash_sz

      buf_sz : ℕ
      buf_sz = 2 + length bytes + length header + length body + 100 + extra

      extra_pos : ℕ
      extra_pos = buf_sz - extra

      body_end : ℕ
      body_end = 2 + length bytes + length header + length body

      full : Bytes
      full = filled bytes header body buf_sz (omega arith)

      length_full : length full ≡ buf_sz
      length_full = length-filled bytes header body buf_sz (omega arith)

      framed : take body_end full ≡ frame bytes header body
      framed = take-filled bytes header body buf_sz (omega arith)

      digest : Bytes
      digest = kit.hasher.digest (take body_end full)

      fits : extra_pos + length digest ≤ length full
      fits = omega (arith, length_full, digests (take body_end full))

      buf : Bytes
      buf = write extra_pos digest full

      length_buf : length buf ≡ buf_sz
      length_buf = length-write extra_pos digest full fits ∙ length_full

      before : take body_end buf ≡ take body_end full
      before = take-write_before extra_pos digest full fits body_end (omega arith)

      over : digest ≡ kit.hasher.digest (frame bytes header body)
      over = ap kit.hasher.digest framed

      digest_eq : take kit.hash_sz (drop extra_pos buf) ≡ digest
      digest_eq =
          ap (λ n. take n (drop extra_pos buf)) (sym (digests (take body_end full)))
          ∙ slice-write extra_pos digest full fits
