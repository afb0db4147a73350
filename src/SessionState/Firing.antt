-- ===== src/SessionState/Firing.antt =====
-- Firing the hooks of a session: which calls are made, whatever the callbacks do meanwhile.
use lkrequest_py.Prelude.{
  ℕ, String, ◌≡◌, sym, ◌∙◌, List, [], ◌∷◌, ◌++◌, append_assoc, append-nil, map, Option,
}
use lkrequest_py.SessionState.{
  Callback, Behaviour, HookCall, request_call, response_call, World, call_hook, call_hooks,
  headers_val, fire_request, fire_response,
}

pub call_hooks-calls :
    (b : Behaviour) (args : Callback → HookCall) (hs : List Callback) (w : World)
    → (call_hooks b args hs w).calls ≡ w.calls ++ map args hs
unfolding call_hooks
call_hooks-calls b args [] w = sym (append-nil w.calls)
call_hooks-calls b args (h ∷ hs) w =
    call_hooks-calls b args hs (call_hook b args h w)
    ∙ append_assoc w.calls (args h ∷ []) (map args hs)

pub fire_request-calls :
    (b : Behaviour) (method url : String) (headers : Option (List (String × String))) (w : World)
    → (fire_request b method url headers w).calls
      ≡ w.calls ++ map (λ h. request_call h method url (headers_val headers)) w.state.request_hooks
unfolding fire_request
fire_request-calls b method url headers w =
    call_hooks-calls b (λ h. request_call h method url (headers_val headers)) w.state.request_hooks
      w

pub fire_response-calls :
    (b : Behaviour) (status : ℕ) (url : String) (elapsed : ℕ) (w : World)
    → (fire_response b status url elapsed w).calls
      ≡ w.calls ++ map (λ h. response_call h status url elapsed) w.state.response_hooks
unfolding fire_response
fire_response-calls b status url elapsed w =
    call_hooks-calls b (λ h. response_call h status url elapsed) w.state.response_hooks w

-- `fire_request` calls every request hook that is registered when it begins, once each, in order of
-- registration, all with the same method, URL and header map, and no other, whatever the callbacks
-- do: register more, close the session, or raise. `fire_response` does so with the response hooks,
-- all with the same status, URL and time.
pub fire-calls :
    (b : Behaviour) (method url : String) (headers : Option (List (String × String)))
    (status elapsed : ℕ) (w : World)
    → ((fire_request b method url headers w).calls
        ≡ w.calls
          ++ map (λ h. request_call h method url (headers_val headers)) w.state.request_hooks)
      × ((fire_response b status url elapsed w).calls
          ≡ w.calls ++ map (λ h. response_call h status url elapsed) w.state.response_hooks)
fire-calls b method url headers status elapsed w =
    (fire_request-calls b method url headers w, fire_response-calls b status url elapsed w)
