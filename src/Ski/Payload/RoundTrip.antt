-- ===== src/Ski/Payload/RoundTrip.antt =====
-- What UnpackAndVerify gives for a buffer that PackAndSign made.
use mathlib.Core.List.{append_assoc, append-nil}
use amp_host_go.Base.{
  ℕ, ◌+◌, ◌-◌, ◌%◌, ◌^◌, ◌≤◌, ◌<◌, ◌≡◌, refl, sym, ap, ◌∙◌, true, false, not, ◌&&◌, Option, none,
  some, Option-cases, inl, inr, [], ◌∷◌, ◌++◌, arith, ltb, leb, if◌then◌else◌, if_true, if_false,
  length, take, drop, length-append,
}
use amp_host_go.Base.Bytes.{Bytes}
use amp_host_go.Base.Assoc.{lookup}
use amp_host_go.Base.Slices.{take_exact, drop_exact}
use amp_host_go.Ski.Payload.{
  Env, HashKit, SigHeader, slice, byte_at, read_hdr_end, read_sig_header, unpack_from,
  unpack_and_verify, unpacked, unpack_panics, verify_payload, finish_unpack, fetch_hash_kit,
  new_hash_kit, PayloadUnpacker, Unpacked, SignedPayload, bad_signature,
}
use amp_host_go.Ski.Payload.Bits.{read_back}
use amp_host_go.Ski.Payload.Packing.{prefix, frame}

slice_lem :
    (lo hi : ℕ) (xs ys zs spare buf : Bytes)
    → buf ≡ xs ++ ys ++ zs
    → length xs ≡ lo
    → lo + length ys ≡ hi
    → slice lo hi buf spare ≡ some ys
unfolding slice
slice_lem lo hi xs ys zs spare buf e a b =
    let total = length-append (xs ++ ys) zs in
    let front = length-append xs ys in
    let sized : length buf ≡ length xs + length ys + length zs =
      ap length e ∙ total ∙ ap (λ n. n + length zs) front in
    let up : leb lo hi ≡ true = ground (arith, b) in
    let top : leb hi (length buf + length spare) ≡ true = ground (arith, a, b, sized) in
    let within : (leb lo hi && leb hi (length buf + length spare)) ≡ true =
      ground (arith, up, top) in
    let n_eq : hi - lo ≡ length ys = omega (arith, b) in
    let all_eq : buf ++ spare ≡ xs ++ (ys ++ (zs ++ spare)) =
      ap (λ x. x ++ spare) e
      ∙ append_assoc (xs ++ ys) zs spare
      ∙ append_assoc xs ys (zs ++ spare) in
    if_true _ _ within
    ∙ ap some (
        ap (λ x. take (hi - lo) (drop lo x)) all_eq
        ∙ ap (take (hi - lo)) (drop_exact lo xs (ys ++ (zs ++ spare)) a)
        ∙ take_exact (hi - lo) ys (zs ++ spare) (sym n_eq))

byte_at_lem : (xs : Bytes) (x : ℕ) (ys : Bytes) → byte_at (length xs) (xs ++ x ∷ ys) ≡ x
byte_at_lem [] x ys = refl
byte_at_lem (y ∷ xs) x ys = byte_at_lem xs x ys

-- The kits that an unpacker has are those that NewHashKit gives.
abbrev pub IsCached : Env → PayloadUnpacker → Type 0
IsCached v u =
    (id : ℕ) (kit : HashKit) → lookup id u.hash_kits ≡ some kit → new_hash_kit v id ≡ some kit

pub fetch_hash_kit_lem :
    (v : Env) (u : PayloadUnpacker) (id : ℕ)
    → IsCached v u
    → (fetch_hash_kit v id u).1 ≡ new_hash_kit v id
unfolding fetch_hash_kit
fetch_hash_kit_lem v u id c = elim (Option-cases (lookup id u.hash_kits)) [
  | inr (kit, e) ↦ rw (fetch_hash_kit, e) (sym (c id kit e))
  | inl e ↦
      rw (fetch_hash_kit, e)
        (elim (Option-cases (new_hash_kit v id)) [ inl n ↦ rw n refl | inr (kit, s) ↦ rw s refl ])
]

module _ (v : Env) (hdr : SigHeader) (bytes header body sig spare old_hash : Bytes)
    (u : PayloadUnpacker) (kit : HashKit) (short : length bytes < 510) (sig_fits : 47 ≤ length sig)
    (small : length bytes + length header + length body + length sig + 3 < 2 ^ 32)
    (decodes : v.unmarshal bytes ≡ (hdr, true)) (header_sz : hdr.header_sz ≡ length header)
    (body_sz : hdr.body_sz ≡ length body) (cached : IsCached v u)
    (known : new_hash_kit v hdr.hash_kit_id ≡ some kit)
    (verifies : v.verify hdr.signer_crypto_kit sig
        (kit.hasher.digest (frame bytes header body))
        hdr.signer_pub_key
      ≡ true) where
  abbrev signed : Bytes
  signed = frame bytes header body ++ (length sig ∷ []) ++ sig

  length-frame : length (frame bytes header body) ≡ 2 + length bytes + length header + length body
  length-frame = omega (
    arith,
    length-append (prefix bytes ++ bytes ++ header) body,
    length-append (prefix bytes ++ bytes) header,
    length-append (prefix bytes) bytes,
  )

  length-signed : length signed ≡ 3 + length bytes + length header + length body + length sig
  length-signed = omega (
    arith,
    length-frame,
    length-append (frame bytes header body ++ (length sig ∷ [])) sig,
    length-append (frame bytes header body) (length sig ∷ []),
  )

  hdr_end_eq : read_hdr_end signed ≡ length bytes + 2
  hdr_end_eq = read_back (length bytes) short

  split_hdr : signed ≡ prefix bytes ++ (bytes ++ (header ++ body ++ (length sig ∷ []) ++ sig))
  split_hdr = ap (prefix bytes ++◌) (simp (append_assoc) refl)

  taken : take (read_hdr_end signed - 2) (drop 2 signed) ≡ bytes
  taken =
      let n : read_hdr_end signed - 2 ≡ length bytes = omega (arith, hdr_end_eq) in
      ap (λ b. take (read_hdr_end signed - 2) (drop 2 b)) split_hdr
      ∙ ap (λ k. take k (bytes ++ (header ++ body ++ (length sig ∷ []) ++ sig))) n
      ∙ take_exact (length bytes) bytes (header ++ body ++ (length sig ∷ []) ++ sig) refl

  abbrev wrapped : ℕ
  wrapped = length signed % 2 ^ 32

  wrapped_eq : wrapped ≡ length signed
  wrapped_eq = omega (arith, length-signed, small)

  read_lem : read_sig_header v signed ≡ (hdr, length bytes + 2, true)
  unfolding read_sig_header
  read_lem =
      let long : ltb wrapped 50 ≡ false = ground (arith, wrapped_eq, length-signed, sig_fits) in
      let room : ltb (wrapped - 10) (read_hdr_end signed) ≡ false =
        ground (arith, wrapped_eq, length-signed, sig_fits, hdr_end_eq) in
      let e : v.unmarshal (take (read_hdr_end signed - 2) (drop 2 signed)) ≡ (hdr, true) =
        ap v.unmarshal taken ∙ decodes in
      if_false _ _ long ∙ if_false _ _ room ∙ λ i. ((e i).0, hdr_end_eq i, (e i).1)

  abbrev header_pos : ℕ
  header_pos = length bytes + 2

  abbrev header_end : ℕ
  header_end = (header_pos + hdr.header_sz) % 2 ^ 32

  abbrev body_end : ℕ
  body_end = (header_end + hdr.body_sz) % 2 ^ 32

  abbrev sig_pos : ℕ
  sig_pos = (body_end + 1) % 2 ^ 32

  abbrev sig_end : ℕ
  sig_end = (sig_pos + byte_at body_end signed) % 2 ^ 32

  header_end_eq : header_end ≡ 2 + length bytes + length header
  header_end_eq = omega (arith, header_sz, small)

  body_end_eq : body_end ≡ 2 + length bytes + length header + length body
  body_end_eq = omega (arith, header_end_eq, body_sz, small)

  sig_len_eq : byte_at body_end signed ≡ length sig
  sig_len_eq =
      ap (λ k. byte_at k signed) (body_end_eq ∙ sym length-frame)
      ∙ ap (byte_at (length (frame bytes header body)))
          (append_assoc (frame bytes header body) (length sig ∷ []) sig)
      ∙ byte_at_lem (frame bytes header body) (length sig) sig

  sig_pos_eq : sig_pos ≡ 3 + length bytes + length header + length body
  sig_pos_eq = omega (arith, body_end_eq, small)

  sig_end_eq : sig_end ≡ length signed
  sig_end_eq = omega (arith, sig_pos_eq, sig_len_eq, length-signed, small)

  header_slice : slice header_pos header_end signed spare ≡ some header
  header_slice =
      slice_lem header_pos header_end (prefix bytes ++ bytes) header
        (body ++ (length sig ∷ []) ++ sig) spare signed (simp (append_assoc) refl)
        (omega (arith, length-append (prefix bytes) bytes)) (omega (arith, header_end_eq))

  body_slice : slice header_end body_end signed spare ≡ some body
  body_slice =
      slice_lem header_end body_end (prefix bytes ++ bytes ++ header) body
        ((length sig ∷ []) ++ sig) spare signed (simp (append_assoc) refl)
        (omega (
          arith,
          length-append (prefix bytes ++ bytes) header,
          length-append (prefix bytes) bytes,
          header_end_eq,
        ))
        (omega (arith, header_end_eq, body_end_eq))

  sig_slice : slice sig_pos sig_end signed spare ≡ some sig
  sig_slice =
      slice_lem sig_pos sig_end (frame bytes header body ++ (length sig ∷ [])) sig [] spare signed
        (simp (append-nil) refl)
        (omega (
          arith,
          length-append (frame bytes header body) (length sig ∷ []),
          length-frame,
          sig_pos_eq,
        ))
        (omega (arith, sig_pos_eq, sig_end_eq, length-signed))

  signed_part : take body_end signed ≡ frame bytes header body
  signed_part =
      ap (take body_end) (append_assoc (frame bytes header body) (length sig ∷ []) sig)
      ∙ take_exact body_end (frame bytes header body) ((length sig ∷ []) ++ sig)
          (length-frame ∙ sym body_end_eq)

  abbrev payload : SignedPayload
  payload = record {
    header_codec = hdr.header_codec;
    header = header;
    body = body;
    hash_kit = hdr.hash_kit_id;
    hash = kit.hasher.digest (frame bytes header body);
    hash_sig = sig;
    signer_pub_key = hdr.signer_pub_key;
    signer_crypto_kit = hdr.signer_crypto_kit;
  }

  verify_lem :
      (verify_payload v (frame bytes header body) hdr (some header) (some sig) (some body) u).1
      ≡ unpacked payload none
  unfolding verify_payload finish_unpack
  verify_lem =
      ap after (fetch_hash_kit_lem v u hdr.hash_kit_id cached ∙ known)
      ∙ ap
          (finish_unpack hdr (some header) (some sig) (some body)
            (kit.hasher.digest (frame bytes header body)))
          (if_true _ _ verifies)
    where
      picked : Option HashKit → PayloadUnpacker × Unpacked
      picked o = elim o [
        | none ↦ ((fetch_hash_kit v hdr.hash_kit_id u).0, unpack_panics)
        | some k ↦ (
          (fetch_hash_kit v hdr.hash_kit_id u).0,
          finish_unpack hdr (some header) (some sig) (some body)
              (k.hasher.digest (frame bytes header body))
              (if v.verify hdr.signer_crypto_kit sig (k.hasher.digest (frame bytes header body))
                  hdr.signer_pub_key
                then none
                else some bad_signature),
        )
      ]

      after : Option HashKit → Unpacked
      after o = (picked o).1

  pub unpack_and_verify_lem :
      (unpack_and_verify v signed spare old_hash u).1 ≡ unpacked payload none
  unfolding unpack_and_verify unpack_from
  unpack_and_verify_lem =
      let inside : leb (length signed) body_end ≡ false =
        ground (arith, length-signed, body_end_eq) in
      let fits : (true && not (ltb (length signed % 2 ^ 32 - 1) body_end)) ≡ true =
        ground (arith, wrapped_eq, length-signed, body_end_eq) in
      ap (λ r. (unpack_from v signed spare old_hash u r).1) read_lem
      ∙ ap (λ (r : PayloadUnpacker × Unpacked). r.1) (if_false _ _ inside ∙ if_true _ _ fits)
      ∙ (λ i.
          (verify_payload v (signed_part i) hdr (header_slice i) (sig_slice i) (body_slice i) u).1)
      ∙ verify_lem
