-- ===== src/Tests/Dispatching.antt =====
-- Messages on their way to their handlers.
use wire_protocols.Prelude.{ℕ, ◌≡◌, ◌≢◌, none, List, [], ◌∷◌, codes}
use wire_protocols.Requests.{register}
use wire_protocols.Responses.{Response, failure}
use wire_protocols.Responses
use wire_protocols.Dispatch.{
  called, miscast, dispatch, register_all, dispatch-register_all, Registration,
}
use wire_protocols.Server.{handle_request}
use wire_protocols.Server.Registry
use wire_protocols.Client.Handlers.{handle_response}
use wire_protocols.Client.Registry.{
  dispatch_response, instance_after, dispatch_response-handle_response,
}
use wire_protocols.Tests.Logins.{digest, any, draws, bob}

-- Handlers that answer with a number, one of them registered twice.
abbrev numbers : List (Registration Registry.class_discrete Registry.RequestOf ℕ)
numbers =
    (Registry.register_class, λ m. 1)
    ∷ (Registry.login_class, λ m. 2)
    ∷ (Registry.register_class, λ m. 3)
    ∷ []

dispatch-register_all_example :
    dispatch Registry.class_discrete Registry.RequestOf ℕ Registry.register_class bob
      (register_all Registry.class_discrete Registry.RequestOf ℕ numbers (λ j. none))
    ≢ miscast
dispatch-register_all_example =
    dispatch-register_all Registry.class_discrete Registry.RequestOf ℕ numbers
      Registry.register_class bob

-- The second call of `get_instance` registers again.
dispatch_request-handle_request_example :
    Registry.dispatch_request digest any draws
      (register bob)
      (Registry.instance_after digest any draws 2).handlers
    ≡ called (λ db who. handle_request digest any draws (register bob) db who)
dispatch_request-handle_request_example =
    Registry.dispatch_request-handle_request digest any draws 1 (register bob)

dispatch_response-handle_response_example :
    dispatch_response
      (Responses.registered (failure (codes "Username is taken")))
      (instance_after 1).handlers
    ≡ called (λ s. handle_response (Responses.registered (failure (codes "Username is taken"))) s)
dispatch_response-handle_response_example =
    dispatch_response-handle_response 0 (Responses.registered (failure (codes "Username is taken")))
