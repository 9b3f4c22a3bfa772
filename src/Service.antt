-- ===== src/Service.antt =====
-- `service`, `connector` and `acceptor` (src/service.cpp, include/minapp/service.hpp, connector.hpp
-- and acceptor.hpp), and the pointers of a session to its handler (src/session.cpp). The operations
-- of Boost.Asio that they start are given by what they report.
pub mod Callback
pub mod Accepting
use minapp.Base.{
  ℕ, suc, ◌+◌, ◌-◌, Bool, true, false, ◌||◌, Option, none, some, List, [], ◌∷◌, ◌==◌, if◌then◌else◌,
}
use minapp.Manager.{next_id}
use minapp.WriteQueue.{Manager}
use minapp.Session.{Event, Session, init}
use minapp.Session.Promise.{Connected, connect_with}
use minapp.Reader.{Errc}

-- A `handler_ptr` of a session or a service: what `noexcept_handler::wrap` has made of a handler
-- of the program, or of the null pointer, or a `connect_handler` with its function.
pub data HandlerPtr : Type 0 where
  wrapped : Option ℕ → HandlerPtr
  connect_handler : ℕ → HandlerPtr

-- `noexcept_handler::wrap`
abbrev pub wrap : Option ℕ → HandlerPtr
wrap handler = wrapped handler

-- What `session::connect` is given: an endpoint, or a generator of endpoints.
pub data Target : Type 0 where
  endpoint : ℕ → Target
  generator : ℕ → Target

-- A session with its pointer to a handler, its attributes, and what it has been told to connect to.
pub record Hosted : Type 0 where
  pub session : Session
  pub handler : HandlerPtr
  pub attrs : List (ℕ × ℕ)
  pub connecting_to : Option Target

pub record Service : Type 0 where
  pub handler : HandlerPtr
  -- the counter that numbers the sessions
  pub id : ℕ
  -- the sessions that have been made, the newest first; one is destroyed as soon as neither an
  -- operation under way nor the program holds it
  pub sessions : List Hosted

-- `session::handler(other)`: the old handler and the session.
unfoldable pub exchange_handler : Hosted → Option ℕ → HandlerPtr × Hosted
exchange_handler s other = (s.handler, record s { handler = wrap other })

-- `session::use_service_handler`
unfoldable pub use_service_handler : Service → Hosted → HandlerPtr × Hosted
use_service_handler svc s = (s.handler, record s { handler = svc.handler })

-- `connector_impl` and `acceptor_impl`, where the global counter stands at `id`.
unfoldable pub create : Option ℕ → ℕ → Service
create handler id = record { handler = wrap handler; id = id; sessions = [] }

module _ (queue : Manager) where
  -- `session_manager::create` and the constructor of `session_impl`: `queue` is the new write queue.
  -- The pointer to the handler is null, which here is as one to a handler that does nothing.
  unfoldable pub new_session : Service → Hosted × ℕ
  unfolding next_id init
  new_session svc =
      let (id, next) = next_id svc.id in
      (
        record {
          session = init id queue;
          handler = wrapped none;
          attrs = [];
          connecting_to = none;
        },
        next,
      )

  -- `service::connect_impl`
  unfoldable pub connect_impl : Target → HandlerPtr → List (ℕ × ℕ) → Service → Service
  unfolding new_session
  connect_impl target handler attrs svc =
      let (s, next) = new_session svc in
      record svc {
        id = next;
        sessions =
            record s { handler = handler; attrs = attrs; connecting_to = some target }
            ∷ svc.sessions;
      }

  -- The overloads of `service::connect`, each for an endpoint and for a generator.
  unfoldable pub connect_service : Target → List (ℕ × ℕ) → Service → Service
  unfolding connect_impl
  connect_service target attrs svc = connect_impl target svc.handler attrs svc

  unfoldable pub connect_handled : Target → Option ℕ → List (ℕ × ℕ) → Service → Service
  unfolding connect_impl
  connect_handled target handler attrs svc = connect_impl target (wrap handler) attrs svc

  unfoldable pub connect_called : Target → ℕ → Service → Service
  unfolding connect_impl
  connect_called target callback svc = connect_impl target (connect_handler callback) [] svc

  -- `connector::connect`, with the connector's endpoint.
  unfoldable pub connector_connect : ℕ → Service → Service
  unfolding connect_service
  connector_connect remote svc = connect_service (endpoint remote) [] svc

  unfoldable pub connector_connect_handled : ℕ → Option ℕ → Service → Service
  unfolding connect_handled
  connector_connect_handled remote handler svc = connect_handled (endpoint remote) handler [] svc

  unfoldable pub connector_connect_called : ℕ → ℕ → Service → Service
  unfolding connect_called
  connector_connect_called remote callback svc = connect_called (endpoint remote) callback svc

-- The calls of `acceptor::bind` to its socket.
pub data SocketCall : Type 0 where
  open_socket : (protocol : ℕ) → SocketCall
  reuse_address : SocketCall
  bind_socket : (endpoint : ℕ) → SocketCall
  listen : SocketCall

-- What leaves an acceptor's functions and completion handlers as an exception.
pub data Exception : Type 0 where
  system_error : Errc → Exception
  out_of_connect : ℕ → Exception  -- what `session::connect` of a session has thrown

pub record Acceptor : Type 0 where
  pub service : Service
  -- the calls that have succeeded, the last first
  pub calls : List SocketCall
  -- the operations `async_accept` under way
  pub accepting : ℕ
  -- what has been thrown to the caller, or out of a completion handler
  pub thrown : List Exception

-- `acceptor::create`, where the global counter stands at `id`.
unfoldable pub create_acceptor : Option ℕ → ℕ → Acceptor
unfolding create
create_acceptor handler id = record {
  service = create handler id;
  calls = [];
  accepting = 0;
  thrown = [];
}

-- `acceptor::accept`
unfoldable pub accept : Acceptor → Acceptor
accept a = record a { accepting = a.accepting + 1 }

-- A call to the socket, which fails as `asio` says, and what follows it.
unfoldable pub and_then :
    (SocketCall → Option Errc) → SocketCall → (Acceptor → Acceptor) → Acceptor → Acceptor
and_then asio c next a = elim (asio c) [
  | none ↦ next (record a { calls = c ∷ a.calls })
  | some ec ↦ record a { thrown = system_error ec ∷ a.thrown }
]

-- `acceptor::bind`; `family` is that of the endpoint's protocol, `inet` and `inet6` are the
-- numbers of the system.
unfoldable pub bind :
    (asio : SocketCall → Option Errc) (inet inet6 family ep : ℕ) → Acceptor → Acceptor
unfolding and_then accept
bind asio inet inet6 family ep =
    let listening = and_then asio (bind_socket ep) (and_then asio listen accept) in
    and_then asio (open_socket family) (
      if family == inet || family == inet6
      then and_then asio reuse_address listening
      else listening)

module _ (queue : Manager) (handle : HandlerPtr → Event → Session → Session) (max_size fuel : ℕ)
    (peer : ℕ → Bool) where
  -- The completion handler of `async_accept`; none if `fuel` is not enough for `session::connect`.
  -- `peer` tells for which sessions `remote_endpoint` finds the peer of the socket.
  unfoldable pub accepted : Option Errc → Acceptor → Option Acceptor
  unfolding accept new_session
  accepted (some ec) a =
      some (record a { accepting = a.accepting - 1; thrown = system_error ec ∷ a.thrown })
  accepted none a =
      let a' = accept (record a { accepting = a.accepting - 1 }) in
      let svc = a'.service in
      let (s, next) = new_session queue svc in
      let id = s.session.id in
      elim (connect_with (handle svc.handler) max_size (peer id) fuel s.session none) [
        | none ↦ none
        | some c ↦ some (record a' {
          service = record svc {
            id = next;
            sessions = record s { session = c.session; handler = svc.handler } ∷ svc.sessions;
          };
          thrown = elim c.result [ none ↦ out_of_connect id ∷ a'.thrown | some result ↦ a'.thrown ];
        })
      ]
