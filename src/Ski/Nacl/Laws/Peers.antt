-- ===== src/Ski/Nacl/Laws/Peers.antt =====
-- What one peer encrypts for another can be decrypted by it.
use amp_host_go.Base.{
  ℕ, ◌≡◌, sym, ap, ◌∙◌, true, false, not, ◌||◌, Option, none, some, ◌++◌, ◌==◌, ltb, if_true,
  if_false, length, take, arith, length-append,
}
use amp_host_go.Base.Slices.{take_exact, drop_exact}
use amp_host_go.Base.Bytes.{Bytes}
use amp_host_go.Ski.Key.{KeyEntry}
use amp_host_go.Ski.CryptoKit.{
  Random, decrypt_failed, Outcome, gives, fails_with, fill, length-fill,
}
use amp_host_go.Ski.Nacl.{Library, pair_key, generate_new_key, encrypt_for, decrypt_from}
use amp_host_go.Ski.Nacl.Laws.{IsNacl}
use amp_host_go.Ski.Nacl.Laws.Made.{take_all, made_pair}

module _ {r : Random} (n : Library r) (l : IsNacl n) where
  box_key :
      (size : ℕ) (rand rand' : r.Reader) (entry made : KeyEntry)
      → entry.key_type ≡ 2
      → generate_new_key n size rand entry ≡ (made, none, rand')
      → l.IsBoxPair made.pub_key made.priv_key
        × (length made.pub_key ≡ 32)
        × (length made.priv_key ≡ 32)
  unfolding generate_new_key pair_key
  box_key size rand rand' entry made is_box done =
      let not_symmetric : (entry.key_type == 1) ≡ false = ground (arith, is_box) in
      let chosen : (entry.key_type == 2) ≡ true = ground (arith, is_box) in
      made_pair Pair entry entry made (n.box_generate rand).1 rand' (n.box_generate rand).0
        (λ p s e. l.box_pairs rand p s e)
        (sym (if_false _ _ not_symmetric ∙ if_true _ _ chosen) ∙ done)
    where
      Pair : Bytes → Bytes → Type 0
      Pair p s = l.IsBoxPair p s × (length p ≡ 32) × (length s ≡ 32)

  -- Where the libraries do what they document and with two key pairs of GenerateNewKey, what one
  -- peer encrypts for the other is what the other decrypts from it, and EncryptFor fails only if
  -- the reader does.
  pub encrypt_for-decrypt_from :
      (size : ℕ) (rand rand' other other' salts : r.Reader)
      (entry sender entry' receiver : KeyEntry) (msg : Bytes)
      → entry.key_type ≡ 2
      → entry'.key_type ≡ 2
      → generate_new_key n size rand entry ≡ (sender, none, rand')
      → generate_new_key n size other entry' ≡ (receiver, none, other')
      → (r.read 24 salts).1 ≡ true
      → (sealed : Bytes) × ((encrypt_for n salts msg receiver.pub_key sender.priv_key).0
          ≡ gives sealed)
        × (decrypt_from n sealed sender.pub_key receiver.priv_key ≡ gives msg)
  unfolding encrypt_for decrypt_from
  encrypt_for-decrypt_from size rand rand' other other' salts entry sender entry' receiver msg t t'
        done done' ok =
      let (pair, pub_32, priv_32) = box_key size rand rand' entry sender t done in
      let (pair', pub_32', priv_32') = box_key size other other' entry' receiver t' done' in
      let nonce = fill 24 (r.read 24 salts).0 in
      let nonce_ok : length nonce ≡ 24 = length-fill 24 _ in
      let box = n.box_seal msg nonce receiver.pub_key sender.priv_key in
      let sized : not (length receiver.pub_key == 32) ≡ false = ground (arith, pub_32') in
      let sized' : not (length sender.priv_key == 32) ≡ false = ground (arith, priv_32) in
      let read_it : not (r.read 24 salts).1 ≡ false = ground (arith, ok) in
      let in_range : (ltb (length (nonce ++ box)) 24
            || ltb (length sender.pub_key) 32
            || ltb (length receiver.priv_key) 32)
          ≡ false =
        ground (arith, length-append nonce box, nonce_ok, pub_32, priv_32') in
      (
        nonce ++ box,
        ap (λ (p : Outcome Bytes × r.Reader). p.0)
            (if_false _ _ sized ∙ if_false _ _ sized' ∙ if_false _ _ read_it),
        if_false _ _ in_range
            ∙ ap out (
                ap
                  (λ b.
                    n.box_open b (take 24 (nonce ++ box)) (take 32 sender.pub_key)
                      (take 32 receiver.priv_key))
                  (drop_exact 24 nonce box nonce_ok)
                ∙ ap (λ b. n.box_open box b (take 32 sender.pub_key) (take 32 receiver.priv_key))
                    (take_exact 24 nonce box nonce_ok)
                ∙ ap (λ b. n.box_open box nonce b (take 32 receiver.priv_key))
                    (take_all 32 sender.pub_key pub_32)
                ∙ ap (λ b. n.box_open box nonce sender.pub_key b)
                    (take_all 32 receiver.priv_key priv_32')
                ∙ l.box_opens msg nonce sender.pub_key sender.priv_key receiver.pub_key
                    receiver.priv_key nonce_ok pair pair'),
      )
    where
      out : Option Bytes → Outcome Bytes
      out o = elim o [ none ↦ fails_with decrypt_failed | some plain ↦ gives plain ]
