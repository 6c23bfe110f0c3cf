-- ===== src/Om/RequestBuilder.antt =====
-- include/hl/om/Actions.h and src/om/Actions.cpp: `RequestBuilder`, the signed payload and the
-- WebSocket frames around it. `Signer::signL1Action` is a parameter.
mod Frames
mod Runs
use hyperliquid_cpp.Base.{ℕ, Bool, Option, none, some, List, [], ◌∷◌, ◌++◌, codes}
use hyperliquid_cpp.Core.Hex.{to_hex, address_to_hex}
use hyperliquid_cpp.Om.Actions.Wire.{EncodedAction, uint_text}

pub record Signature : Type 0 where
  pub r : List ℕ
  pub s : List ℕ
  pub v : ℕ

-- The vault as `vaultAddress` shows it, and the field `expiresAfter`.
pub vault_text : Option (List ℕ) → List ℕ
vault_text none = codes "null"
vault_text (some address) = codes "\"" ++ (address_to_hex address ++ codes "\"")

pub expires_text : Option ℕ → List ℕ
expires_text none = []
expires_text (some t) = codes ",\"expiresAfter\":" ++ uint_text t

-- The message, the vault, the nonce, the expiry and the network that are signed.
module _ (sign_l1_action : List ℕ → Option (List ℕ) → ℕ → Option ℕ → Bool → Signature) where
  pub record RequestBuilder : Type 0 where
    pub is_mainnet : Bool
    pub vault : Option (List ℕ)

  pub append_payload : RequestBuilder → List ℕ → EncodedAction → ℕ → Option ℕ → List ℕ
  append_payload b body action nonce expires_after =
      let sig = sign_l1_action action.msgpack b.vault nonce expires_after b.is_mainnet in
      body
      ++ (codes "{\"action\":"
          ++ (action.json
              ++ (codes ",\"nonce\":"
                  ++ (uint_text nonce
                      ++ (codes ",\"signature\":{\"r\":\"0x"
                          ++ (to_hex sig.r
                              ++ (codes "\",\"s\":\"0x"
                                  ++ (to_hex sig.s
                                      ++ (codes "\",\"v\":"
                                          ++ (uint_text sig.v
                                              ++ (codes "},\"vaultAddress\":"
                                                  ++ (vault_text b.vault
                                                      ++ (expires_text expires_after
                                                          ++ codes "}")))))))))))))

  pub payload : RequestBuilder → EncodedAction → ℕ → Option ℕ → List ℕ
  payload b action nonce expires_after = append_payload b [] action nonce expires_after

  pub ws_post_action : RequestBuilder → ℕ → EncodedAction → ℕ → Option ℕ → List ℕ
  ws_post_action b request_id action nonce expires_after =
      append_payload b
        (codes "{\"method\":\"post\",\"id\":"
          ++ (uint_text request_id ++ codes ",\"request\":{\"type\":\"action\",\"payload\":"))
        action nonce expires_after
      ++ codes "}}"

pub ws_post : ℕ → List ℕ → List ℕ
ws_post request_id payload_json =
    codes "{\"method\":\"post\",\"id\":"
    ++ (uint_text request_id
        ++ (codes ",\"request\":{\"type\":\"action\",\"payload\":" ++ (payload_json ++ codes "}}")))

pub ws_info : ℕ → List ℕ → List ℕ
ws_info request_id info_json =
    codes "{\"method\":\"post\",\"id\":"
    ++ (uint_text request_id
        ++ (codes ",\"request\":{\"type\":\"info\",\"payload\":" ++ (info_json ++ codes "}}")))
