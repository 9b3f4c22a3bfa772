-- ===== src/Service/Accepting.antt =====
-- The sessions that an acceptor makes.
use minapp.Base.{
  ℕ, suc, ◌+◌, ◌-◌, ◌≡◌, refl, ap, ◌∙◌, inl, inr, Option-cases, Bool-cases, ◌||◌, Bool, false,
  Option, none, some, List, [], ◌∷◌, ◌++◌, ◌==◌, if◌then◌else◌, length, arith,
}
use minapp.WriteQueue.{Manager}
use minapp.Session.{Event, Session, init}
use minapp.Session.Promise.{Connected, connect_with}
use minapp.Reader.{Errc}
use minapp.Service.{
  Exception, system_error, out_of_connect, SocketCall, open_socket, reuse_address, bind_socket,
  listen, bind, and_then, HandlerPtr, Acceptor, accepted, accept, new_session,
}
use minapp.Manager.{next_id}

-- How many connections are accepted before the first error.
abbrev pub successes : List (Option Errc) → ℕ
successes [] = 0
successes (none ∷ results) = suc (successes results)
successes (some ec ∷ results) = 0

abbrev pub first_error : List (Option Errc) → List Errc
first_error [] = []
first_error (none ∷ results) = first_error results
first_error (some ec ∷ results) = ec ∷ []

-- What has been thrown but for what `session::connect` has thrown.
abbrev pub system_errors : List Exception → List Errc
system_errors [] = []
system_errors (system_error ec ∷ es) = ec ∷ system_errors es
system_errors (out_of_connect id ∷ es) = system_errors es

module _ (queue : Manager) (handle : HandlerPtr → Event → Session → Session) (max_size fuel : ℕ)
    (peer : ℕ → Bool) where
  -- The results of `async_accept` in the order in which they come, as long as one is under way.
  unfoldable pub serve : List (Option Errc) → Acceptor → Option Acceptor
  unfolding accepted
  serve [] a = some a
  serve (result ∷ results) a =
      if a.accepting == 0
      then some a
      else elim (accepted queue handle max_size fuel peer result a) [
        | none ↦ none
        | some a' ↦ serve results a'
      ]

  -- What has come of the results.
  pub record Served (results : List (Option Errc)) (a a' : Acceptor) : Type 0 where
    pub sessions : length (a'.service.sessions) ≡ successes results + length (a.service.sessions)
    pub handler : a'.service.handler ≡ a.service.handler
    pub thrown : system_errors a'.thrown ≡ first_error results ++ system_errors a.thrown
    pub accepting : a'.accepting + length (first_error results) ≡ 1

  idle_lem :
      (results : List (Option Errc)) (a : Acceptor) → a.accepting ≡ 0 → serve results a ≡ some a
  unfolding serve
  idle_lem [] a e = refl
  idle_lem (r ∷ results) a e = rw e refl

  -- After a connection that is accepted.
  abbrev with_session : Acceptor → Connected → Acceptor
  with_session a c = record a {
    thrown = elim c.result [
      | none ↦ out_of_connect (next_id a.service.id).0 ∷ a.thrown
      | some result ↦ a.thrown
    ];
    accepting = a.accepting - 1 + 1;
    service = record (a.service) {
      id = (next_id a.service.id).1;
      sessions =
          record {
            session = c.session;
            handler = a.service.handler;
            attrs = [];
            connecting_to = none;
          }
          ∷ a.service.sessions;
    };
  }

  accepted_lem :
      (a : Acceptor) (c : Connected)
      → connect_with
          (handle a.service.handler)
          max_size
          (peer (next_id a.service.id).0)
          fuel
          (init (next_id a.service.id).0 queue)
          none
        ≡ some c
      → accepted queue handle max_size fuel peer none a ≡ some (with_session a c)
  unfolding accepted accept new_session init
  accepted_lem a c e = rw (e, accepted) refl

  serve_more :
      (result : Option Errc) (results : List (Option Errc)) (a b : Acceptor)
      → a.accepting ≡ 1
      → accepted queue handle max_size fuel peer result a ≡ some b
      → serve (result ∷ results) a ≡ serve results b
  unfolding serve
  serve_more result results a b one e =
      let busy : (a.accepting == 0) ≡ false = ground (arith, one) in rw (busy, e) refl

  one_more :
      (a : Acceptor) (c : Connected)
      → (length ((with_session a c).service.sessions) ≡ suc (length (a.service.sessions)))
        × (system_errors ((with_session a c).thrown) ≡ system_errors a.thrown)
  one_more a c =
      (refl, elim (Option-cases c.result) [ inl e ↦ rw e refl | inr (result, e) ↦ rw e refl ])

  -- Where an acceptor has one `async_accept` under way, and the fuel is enough for
  -- `session::connect` on every new session, the acceptor has served any sequence of results, also
  -- where `session::connect` has thrown: each connection before the first error has been made one
  -- session of the service, the first error, and no other but what `session::connect` throws, has
  -- been thrown, and after it no `async_accept` is under way, without one there is one.
  pub serve_lem :
      (results : List (Option Errc)) (a : Acceptor)
      → a.accepting ≡ 1
      → ((id : ℕ)
          → (c : Connected) × (connect_with
                (handle a.service.handler)
                max_size
                (peer id)
                fuel
                (init id queue)
                none
              ≡ some c))
      → (a' : Acceptor) × (serve results a ≡ some a') × Served results a a'
  unfolding serve accepted
  serve_lem [] a one ends = (
    a,
    refl,
    record {
      sessions = omega arith;
      handler = refl;
      thrown = refl;
      accepting = omega (arith, one);
    },
  )
  serve_lem (some ec ∷ results) a one ends =
      let stopped = record a { accepting = a.accepting - 1; thrown = system_error ec ∷ a.thrown } in
      (
        stopped,
        serve_more (some ec) results a stopped one refl
            ∙ idle_lem results stopped (omega (arith, one)),
        record {
          sessions = omega arith;
          handler = refl;
          thrown = refl;
          accepting = omega (arith, one);
        },
      )
  serve_lem (none ∷ results) a one ends =
      let (c, e) = ends (next_id a.service.id).0 in
      let one_served = with_session a c in
      let (a', r, v) = serve_lem results one_served (omega (arith, one)) ends in
      let more = one_more a c in
      (
        a',
        serve_more none results a one_served one (accepted_lem a c e) ∙ r,
        record {
          sessions = omega (arith, v.sessions, more.0);
          handler = v.handler;
          thrown = v.thrown ∙ ap (λ es. first_error results ++ es) more.1;
          accepting = v.accepting;
        },
      )

-- What is left to do of `bind`, which throws one error or starts one operation.
and_then_lem :
    (asio : SocketCall → Option Errc) (c : SocketCall) (next : Acceptor → Acceptor) (a : Acceptor)
    → ((b : Acceptor)
        → (next b).accepting + length ((next b).thrown) ≡ b.accepting + length (b.thrown) + 1)
    → (and_then asio c next a).accepting + length ((and_then asio c next a).thrown)
      ≡ a.accepting + length (a.thrown) + 1
unfolding and_then
and_then_lem asio c next a h = elim (Option-cases (asio c)) [
  | inl e ↦ rw (e, and_then) (h _)
  | inr (ec, e) ↦ rw (e, and_then) (omega arith)
]

accept_lem :
    (a : Acceptor)
    → (accept a).accepting + length ((accept a).thrown) ≡ a.accepting + length (a.thrown) + 1
unfolding accept
accept_lem a = omega arith

pub bind_lem :
    (asio : SocketCall → Option Errc) (inet inet6 family ep : ℕ) (a : Acceptor)
    → (bind asio inet inet6 family ep a).accepting
        + length ((bind asio inet inet6 family ep a).thrown)
      ≡ a.accepting + length (a.thrown) + 1
unfolding bind
bind_lem asio inet inet6 family ep a = elim (Bool-cases (family == inet || family == inet6)) [
  | inl e ↦
      rw (e, bind)
        (and_then_lem asio (open_socket family) (and_then asio reuse_address rest) a
          (λ b. and_then_lem asio reuse_address rest b listening))
  | inr e ↦ rw (e, bind) (and_then_lem asio (open_socket family) rest a listening)
]
  where
    rest : Acceptor → Acceptor
    rest = and_then asio (bind_socket ep) (and_then asio listen accept)

    listening :
        (b : Acceptor)
        → (rest b).accepting + length ((rest b).thrown) ≡ b.accepting + length (b.thrown) + 1
    listening b =
        and_then_lem asio (bind_socket ep) (and_then asio listen accept) b
          (λ c. and_then_lem asio listen accept c accept_lem)
