-- ===== src/Om/RequestBuilder/Frames.antt =====
-- A WebSocket order frame built in one buffer is the frame around the payload.
use hyperliquid_cpp.Base.{ℕ, ◌≡◌, refl, Bool, Option, List, ◌++◌, append_assoc, codes}
use hyperliquid_cpp.Om.Actions.Wire.{EncodedAction, uint_text}
use hyperliquid_cpp.Om.RequestBuilder.{
  Signature, RequestBuilder, append_payload, payload, ws_post_action, ws_post,
}

module _ (sign_l1_action : List ℕ → Option (List ℕ) → ℕ → Option ℕ → Bool → Signature) where
  append_payload-append :
      (b : RequestBuilder sign_l1_action) (body : List ℕ) (action : EncodedAction) (nonce : ℕ)
      (expires_after : Option ℕ)
      → append_payload sign_l1_action b body action nonce expires_after
        ≡ body ++ payload sign_l1_action b action nonce expires_after
  unfolding append_payload payload
  append_payload-append b body action nonce expires_after = refl

  -- Signing into one buffer, the fast path of order entry, gives the very frame that `wsPost` builds
  -- around the signed payload, for any signer, action, nonce and expiry.
  pub ws_post_action-ws_post :
      (b : RequestBuilder sign_l1_action) (request_id : ℕ) (action : EncodedAction) (nonce : ℕ)
      (expires_after : Option ℕ)
      → ws_post_action sign_l1_action b request_id action nonce expires_after
        ≡ ws_post request_id (payload sign_l1_action b action nonce expires_after)
  unfolding ws_post_action ws_post
  ws_post_action-ws_post b request_id action nonce expires_after =
      rw
        (append_payload-append b
          (codes "{\"method\":\"post\",\"id\":"
            ++ (uint_text request_id ++ codes ",\"request\":{\"type\":\"action\",\"payload\":"))
          action nonce expires_after)
        (simp (append_assoc))
