-- ===== src/Provenance/Confirm/Issued.antt =====
-- When a confirmation that was issued is redeemed.
use mcp_searxng_relay.GoLib.Binary.{put_uint64, uint64_round}
use mcp_searxng_relay.Base.{
  text_eq-cases, subst, ℕ, suc, ◌+◌, ◌*◌, ◌/◌, ◌^◌, ◌≤◌, ◌<◌, ◌≡◌, ◌↔◌, inl, inr, refl, ap, arith,
  true, none, some, [], ◌∷◌, ◌++◌, Text, text_eq, if◌then◌else◌, take, drop, length, length-append,
}
use mcp_searxng_relay.Base.Dict.{lookup}
use mcp_searxng_relay.GoLib.Strings.{index_byte}
use mcp_searxng_relay.Provenance.Confirm.{
  Codec, nanos, confirm_ttl, Used, purge, cut_dot, issue, authentic, live_nonce, unexpired, spend,
  redeem,
}

index_byte-append :
    (s t : Text) (c : ℕ) → index_byte s c ≡ none → index_byte (s ++ c ∷ t) c ≡ some (length s)
unfolding index_byte
index_byte-append [] t c h = ground arith
index_byte-append (d ∷ s) t c h = ground (arith, index_byte-append s t c)

take-append : (s t : Text) → take (length s) (s ++ t) ≡ s
take-append [] t = refl
take-append (c ∷ s) t = ap (λ r. c ∷ r) (take-append s t)

drop-append_whole : (s t : Text) → drop (length s) (s ++ t) ≡ t
drop-append_whole [] t = refl
drop-append_whole (c ∷ s) t = drop-append_whole s t

drop-append : (s t : Text) (c : ℕ) → drop (suc (length s)) (s ++ c ∷ t) ≡ t
drop-append [] t c = refl
drop-append (d ∷ s) t c = drop-append s t c

cut_dot-append : (a b : Text) → index_byte a b'.' ≡ none → cut_dot (a ++ b'.' ∷ b) ≡ some (a, b)
cut_dot-append a b h =
    rw (index_byte-append a b b'.' h, cut_dot)
      (rw (take-append a (b'.' ∷ b), drop-append a b b'.') refl)

module _ (codec : Codec) (mac : Text → Text → Text) (now later : ℕ) (nonce binding binding' : Text)
    (used : Used) where
  -- The seconds at which a confirmation issued now expires, and the nonce with them.
  abbrev pub expiry : ℕ
  expiry = (now + confirm_ttl * nanos) / nanos

  abbrev pub nonce_exp : Text
  nonce_exp = nonce ++ put_uint64 expiry

  issued-cut :
      cut_dot (issue codec mac now nonce binding)
      ≡ some (codec.encode nonce_exp, codec.encode (mac nonce_exp binding))
  unfolding issue
  issued-cut = cut_dot-append (codec.encode nonce_exp) _ (codec.no_dot nonce_exp)

  issued-authentic :
      length nonce ≡ 16
      → authentic codec mac (issue codec mac now nonce binding) binding' ≡ (
          if text_eq (mac nonce_exp binding) (mac nonce_exp binding') then some nonce_exp else none)
  unfolding authentic
  issued-authentic sixteen =
      let long : length nonce_exp ≡ 24 = omega (arith, length-append nonce (put_uint64 expiry)) in
      let same = codec.decode-encode nonce_exp in
      let signed = codec.decode-encode (mac nonce_exp binding) in
      rw (authentic, issued-cut) (rw (same, signed, long) (ground arith))

  -- A confirmation that is issued, with a nonce of 16 bytes that no live confirmation has used,
  -- is redeemed just where the call is one with the same MAC, as the call that it was issued for
  -- is, and at most until it expires: ten minutes after its issue, rounded down to a second.
  pub redeem-issue :
      length nonce ≡ 16
      → expiry < 2 ^ 64
      → lookup nonce (purge later used) ≡ none
      → ((redeem codec mac later (issue codec mac now nonce binding) binding' used).0 ≡ true)
        ↔ ((mac nonce_exp binding ≡ mac nonce_exp binding') × (later ≤ expiry * nanos))
  unfolding redeem live_nonce unexpired spend
  redeem-issue sixteen bounded unused =
      let form = issued-authentic sixteen in
      let fresh : (spend later (nonce, expiry) used).0 ≡ true = rw (spend, unused) refl in
      let head : take 16 nonce_exp ≡ nonce =
        subst (λ k. take k nonce_exp ≡ nonce) sixteen (take-append nonce (put_uint64 expiry)) in
      let tail : drop 16 nonce_exp ≡ put_uint64 expiry =
        subst (λ k. drop k nonce_exp ≡ put_uint64 expiry) sixteen
          (drop-append_whole nonce (put_uint64 expiry)) in
      elim (text_eq-cases (mac nonce_exp binding) (mac nonce_exp binding')) [
        | inr (e, ne) ↦
            rw (redeem, live_nonce, form, e) ((λ h. cc), (λ (same, _). absurd (ne same)))
        | inl (e, same) ↦
            rw (redeem, live_nonce, form, e)
              (rw (head, tail, uint64_round expiry bounded)
                ((λ h. (same, ground arith)), (λ (_, h). ground (arith, fresh))))
      ]
