-- ===== src/SessionState/Tests.antt =====
-- Runs of the session state of src/session_state.rs.
use lkrequest_py.Prelude.{◌≡◌, ok, true, false, List, [], ◌∷◌, ◌++◌, map, none, some, inl, ℕ}
use lkrequest_py.SessionState.{
  World, Behaviour, on_request, on_response, closes, request_call, response_call, fire_request,
  fire_response, headers_val,
}
use lkrequest_py.SessionState.Firing.{fire-calls}
use lkrequest_py.SessionState.Guarding.{Moment, calls, polls}
use lkrequest_py.SessionState.Released.{
  IsReleased, Action, act, act_all, calls_op, fires_request, act_all-Closes,
}

-- A session with two hooks and one middleware, whose callback 1 registers another hook.
abbrev busy : World
busy = record {
  state = record {
    request_hooks = 1 ∷ 2 ∷ [];
    response_hooks = 3 ∷ [];
    closed = false;
    middleware = record { on_request = some 4; on_response = none } ∷ [];
  };
  calls = [];
  warnings = 0;
}

abbrev registering : Behaviour
registering = record { ops = λ cb. on_request 9 ∷ []; answer = λ cb. ok tt }

fire-calls_example :
    ((fire_request registering "GET" "https://a/" none busy).calls
      ≡ [] ++ map (λ h. request_call h "GET" "https://a/" (headers_val none)) (1 ∷ 2 ∷ []))
    × ((fire_response registering 200 "https://a/" 5 busy).calls
        ≡ [] ++ map (λ h. response_call h 200 "https://a/" 5) (3 ∷ []))
fire-calls_example = fire-calls registering "GET" "https://a/" none 200 5 busy

abbrev later : List Action
later = calls_op (on_request 7) ∷ fires_request "GET" "https://b/" none ∷ calls_op closes ∷ []

-- Callback 1 closes the session, and callback 2 is called all the same.
abbrev closing : Behaviour
closing = record { ops = λ cb. on_request 9 ∷ closes ∷ []; answer = λ cb. ok tt }

act_all-Closes_example :
    IsReleased
      (act_all closing later (act closing (fires_request "GET" "https://a/" none) busy)).state
    × ((act_all closing later (act closing (fires_request "GET" "https://a/" none) busy)).calls
        ≡ [] ++ map (λ h. request_call h "GET" "https://a/" (headers_val none)) (1 ∷ 2 ∷ []))
act_all-Closes_example =
    act_all-Closes closing (fires_request "GET" "https://a/" none) later busy (inl tt)

-- A hook is registered and the request polled, the session is closed, and the request has its answer
-- at the next poll, which looks at the closing first.
abbrev before : List (Moment ℕ)
before = calls (on_request 7) ∷ polls true none ∷ []
