-- ===== src/Protocol.antt =====
-- src/protocol.rs: the choices of protocol that Python names, and those of the `lkrequest` library.
use lkrequest_py.Prelude.{◌≡◌, refl}

pub data HttpIntent : Type 0 where
  h2_only h3_only acquire_h3_when_viable reuse_existing_protocol : HttpIntent

-- The library's, with its two deprecated variants.
pub data LibIntent : Type 0 where
  lib_h2_only lib_h3_only lib_acquire_h3_when_viable lib_prefer_h3 lib_reuse_existing_protocol
        lib_auto :
      LibIntent

pub to_lib_intent : HttpIntent → LibIntent
to_lib_intent h2_only = lib_h2_only
to_lib_intent h3_only = lib_h3_only
to_lib_intent acquire_h3_when_viable = lib_acquire_h3_when_viable
to_lib_intent reuse_existing_protocol = lib_reuse_existing_protocol

pub from_lib_intent : LibIntent → HttpIntent
from_lib_intent lib_h2_only = h2_only
from_lib_intent lib_h3_only = h3_only
from_lib_intent lib_acquire_h3_when_viable = acquire_h3_when_viable
from_lib_intent lib_prefer_h3 = acquire_h3_when_viable
from_lib_intent lib_reuse_existing_protocol = reuse_existing_protocol
from_lib_intent lib_auto = reuse_existing_protocol

pub data PreferredHttpVersion : Type 0 where
  auto http1_only http2_only http3_only http3_with_fallback : PreferredHttpVersion

pub data Idempotency : Type 0 where
  default_idempotency idempotent not_idempotent : Idempotency

pub data BrokenQuicPolicy : Type 0 where
  strict resilient disabled : BrokenQuicPolicy

pub data H3RetryMode : Type 0 where
  safe chrome155_protocol_errors : H3RetryMode

-- The intent that a policy built with `with_intent` reports is the one given.
pub intent_round_trip : (i : HttpIntent) → from_lib_intent (to_lib_intent i) ≡ i
unfolding to_lib_intent from_lib_intent
intent_round_trip h2_only = refl
intent_round_trip h3_only = refl
intent_round_trip acquire_h3_when_viable = refl
intent_round_trip reuse_existing_protocol = refl
