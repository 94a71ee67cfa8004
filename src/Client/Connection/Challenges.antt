-- ===== src/Client/Connection/Challenges.antt =====
-- The handshake of a worker with the manager, from both sides.
use synergia.Prelude.{◌≡◌, true, some, eq_refl, none, Option, arith}
use synergia.Protocol.{SignedResponse}
use synergia.Gateway.State.{Bytes, Env}
use synergia.Gateway.Handshake.{Reply, no_reply, signed, signature_ok}
use synergia.Client.Connection.{build_challenge_response}

-- What the manager reads where the worker answers by that response.
abbrev pub reply_of : Option SignedResponse → Reply
reply_of none = no_reply
reply_of (some resp) = signed resp

-- Where base64 decodes what it encoded and a signature by the private key verifies under the public
-- one, the manager accepts the worker's answer to the challenge that carries its nonce.
pub signature_ok-build_challenge_response :
    (env : Env) (sign : Bytes → Bytes → Bytes) (pub_key priv_key nonce : Bytes)
    → ((bs : Bytes) → env.base64_decode (env.base64_encode bs) ≡ some bs)
    → ((bs : Bytes) → env.verify pub_key bs (sign priv_key bs) ≡ true)
    → signature_ok env pub_key nonce
        (reply_of (build_challenge_response env sign (env.base64_encode nonce) priv_key))
      ≡ true
unfolding build_challenge_response
signature_ok-build_challenge_response env sign pub_key priv_key nonce decodes verifies = ground (
  arith,
  decodes nonce,
  eq_refl (env.base64_encode nonce),
  decodes (sign priv_key nonce),
  verifies nonce,
)
