-- ===== src/Dispatch.antt =====
-- src/include/models/message_handler.hpp: the table from the type of a message to its handler. The
-- table keeps functions of untyped pointers, which cast them to the type that the handler takes.
use wire_protocols.Prelude.{
  ap, sym, ◌∙◌, ◌≡◌, ◌≢◌, refl, subst, ite, if_pos, if_neg, Bool, false, Option, none, some, List,
  [], ◌∷◌, if◌then◌else◌,
}
use mathlib.Core.HLevel.{hedberg}
use mathlib.Core.Path.{subst_refl}

-- What comes of a call of `dispatch`: the handler's result, the message that no handler is
-- registered, or undefined behaviour, where a handler reads an object of one class as one of another.
pub data Dispatched (R : Type 0) : Type 0 where
  called : R → Dispatched R
  unregistered : Dispatched R
  miscast : Dispatched R

-- `K` has a value for each class of messages (`typeid`), whose objects are `Payload k`, and `R` is
-- what a handler does.
module _ {K : Type 0} (eq : Discrete K) (Payload : K → Type 0) (R : Type 0) where
  -- A `void*` to a message: the class that the object has stays unknown to who holds the pointer.
  abbrev pub Untyped : Type 0
  Untyped = (k : K) × Payload k

  -- `HandlerFunction`. `none`: the cast is to another class than the object's.
  abbrev pub HandlerFunction : Type 0
  HandlerFunction = Untyped → Option R

  abbrev pub Handlers : Type 0
  Handlers = K → Option HandlerFunction

  cast_by : {j k : K} → Dec (j ≡ k) → Payload j → Option (Payload k)
  cast_by (yes p) m = some (subst Payload p m)
  cast_by (no _) m = none

  -- `*static_cast<T*>(message)`
  unfoldable pub static_cast : (k : K) → Untyped → Option (Payload k)
  unfolding cast_by
  static_cast k (j, m) = cast_by (eq j k) m

  -- The function that `register_handler` stores.
  unfoldable pub stored : (k : K) → (Payload k → R) → HandlerFunction
  unfolding static_cast
  stored k handler message = elim (static_cast k message) [
    | none ↦ none
    | some m ↦ some (handler m)
  ]

  -- `register_handler<T>`: `handlers[typeid(T)] = ...`
  unfoldable pub register_handler : (k : K) → (Payload k → R) → Handlers → Handlers
  unfolding stored
  register_handler k handler handlers j = ite (eq k j) (some (stored k handler)) (handlers j)

  -- What the stored function that was found does.
  unfoldable pub call : Option HandlerFunction → Untyped → Dispatched R
  call none message = unregistered
  call (some f) message = elim (f message) [ none ↦ miscast | some r ↦ called r ]

  -- `dispatch<T>`
  unfoldable pub dispatch : (k : K) → Payload k → Handlers → Dispatched R
  unfolding call
  dispatch k m handlers = call (handlers k) (k, m)

  -- A `MessageHandler`.
  pub record MessageHandler : Type 0 where
    pub handlers : Handlers
    pub handlers_initialized : Bool

  -- The thread's own, before the first call.
  unfoldable pub new_instance : MessageHandler
  new_instance = record { handlers = λ k. none; handlers_initialized = false }

  -- `get_instance`, with `init_message_handlers` of the program. It does not set the flag.
  unfoldable pub get_instance : (Handlers → Handlers) → MessageHandler → MessageHandler
  get_instance init_message_handlers i =
      if i.handlers_initialized
      then i
      else (record i { handlers = init_message_handlers i.handlers })

  cast_by_self : (k : K) (d : Dec (k ≡ k)) (m : Payload k) → cast_by d m ≡ some m
  unfolding cast_by
  cast_by_self k (yes p) m =
      ap (λ q. some (subst Payload q m)) (hedberg eq k k p refl)
      ∙ ap (λ x. some x) (subst_refl Payload m)
  cast_by_self k (no apart) m = absurd (apart refl)

  stored_self :
      (k : K) (handler : Payload k → R) (m : Payload k) → stored k handler (k, m) ≡ some (handler m)
  unfolding stored static_cast
  stored_self k handler m = rw (cast_by_self k (eq k k) m, stored, static_cast) refl

  -- A handler that was found under the class of the message is called with the message.
  pub dispatch-stored :
      (k : K) (handler : Payload k → R) (m : Payload k) (handlers : Handlers)
      → handlers k ≡ some (stored k handler)
      → dispatch k m handlers ≡ called (handler m)
  unfolding dispatch
  dispatch-stored k handler m handlers e = rw (e, call, stored_self k handler m) refl

  -- `init_message_handlers` of a program: the registrations in their order.
  abbrev pub Registration : Type 0
  Registration = (k : K) × (Payload k → R)

  abbrev pub register_all : List Registration → Handlers → Handlers
  register_all [] handlers = handlers
  register_all ((k, handler) ∷ later) handlers =
      register_all later (register_handler k handler handlers)

  -- What is stored under a class takes the objects of that class.
  abbrev pub WellTyped : Handlers → Type 0
  WellTyped handlers = (k : K) (m : Payload k) → dispatch k m handlers ≢ miscast

  cast_by-same :
      {j k : K}
      → j ≡ k
      → (d : Dec (j ≡ k)) (m : Payload j) → (n : Payload k) × (cast_by d m ≡ some n)
  unfolding cast_by
  cast_by-same p (yes q) m = (subst Payload q m, refl)
  cast_by-same p (no apart) m = absurd (apart p)

  call-stored :
      {j k : K} (handler : Payload k → R) (m : Payload j)
      → j ≡ k
      → (r : R) × (call (some (stored k handler)) (j, m) ≡ called r)
  unfolding call stored static_cast
  call-stored {j} {k} handler m p =
      let (n, cast) = cast_by-same p (eq j k) m in
      (handler n, rw (cast, call, stored, static_cast) refl)

  register_handler-WellTyped :
      (k : K) (handler : Payload k → R) (handlers : Handlers)
      → WellTyped handlers
      → WellTyped (register_handler k handler handlers)
  unfolding dispatch register_handler
  register_handler-WellTyped k handler handlers typed j m = elim (eq k j) [
    | yes p ↦ λ wrong.
        let (r, result) = call-stored handler m (sym p) in
        cc (if_pos (eq k j) p (some (stored k handler)) (handlers j), result, wrong)
    | no p ↦ rw (if_neg (eq k j) p (some (stored k handler)) (handlers j)) (typed j m)
  ]

  register_all-WellTyped :
      (registrations : List Registration) (handlers : Handlers)
      → WellTyped handlers
      → WellTyped (register_all registrations handlers)
  register_all-WellTyped [] handlers typed = typed
  register_all-WellTyped ((k, handler) ∷ later) handlers typed =
      register_all-WellTyped later (register_handler k handler handlers)
        (register_handler-WellTyped k handler handlers typed)

  -- Whatever handlers are registered in a new table, in whatever order and how often for a class: a
  -- dispatch of a message never reads the message as one of another class.
  pub dispatch-register_all :
      (registrations : List Registration) (k : K) (m : Payload k)
      → dispatch k m (register_all registrations (λ j. none)) ≢ miscast
  unfolding dispatch
  dispatch-register_all registrations =
      register_all-WellTyped registrations (λ j. none) none_registered
    where
      none_registered : WellTyped (λ j. none)
      none_registered k m = cc
