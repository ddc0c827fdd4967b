-- ===== src/Discover/Registry/Directory/Holds.antt =====
-- discover/server.go: registrations and the health check, for the instances of the directory.
use g_micor.Base.{
  String, ◌≡◌, refl, ap, sym, subst, ◌∙◌, Bool, not, ◌&&◌, Option, none, some, List, [], ◌∷◌,
  lookup, elem, arith, str_eq, eq_iff, if◌then◌else◌, lookup-insert, Option-cases, inl, inr,
}
use g_micor.Discover.Registry.{
  Client, Peer, Service, read, client_addr, register, perform_health_check, register_locked,
  is_service_healthy, handle_unhealthy_service,
}
use g_micor.Discover.Registry.Invariant.{IsConsistent}
use g_micor.Discover.Registry.Health.{
  IsExact, SameAddrs, elem-perform_health_check, client-handle_unhealthy_service,
  names-handle_unhealthy_service,
}
use g_micor.Discover.Registry.Lookup.{register-SameAddrs, elem-register, names-register}
use g_micor.Discover.Registry.Directory.{
  Directory, names_of, client_of, started, put, alive, GrowsAt,
}

-- The centre's maps hold a directory.
pub record Holds (s : Service) (d : Directory) : Type 0 where
  pub clients : (addr : String) → lookup addr s.addr_store ≡ client_of (d addr)
  pub registered : (addr : String) → read s.s_addr_to_s_names addr ≡ names_of (d addr)
  pub listed :
      (addr name : String)
      → elem addr (read s.s_name_to_s_addr name) ≡ elem name (names_of (d addr))

Holds-IsExact : {s : Service} {d : Directory} → Holds s d → IsExact s
Holds-IsExact h addr name e = ap (elem name) (h.registered addr) ∙ sym (h.listed addr name) ∙ e

pub Holds-SameAddrs : {s t : Service} {d : Directory} → SameAddrs s t → Holds s d → Holds t d
Holds-SameAddrs {s} {t} {d} same h = record {
  clients = λ a. ap (lookup a) same.2 ∙ h.clients a;
  registered = λ a. ap (λ m. read m a) same.1 ∙ h.registered a;
  listed = λ a name. ap (λ m. elem a (read m name)) same.0 ∙ h.listed a name;
}

-- A registration that reaches the centre.
module _ (dial : String → Option Client) (peer : Option Peer) (port : String) {addr : String}
    {client : Client} (known : client_addr peer port ≡ some addr)
    (dialled : dial addr ≡ some client) where
  client-register :
      (servers : List String) (s : Service) (a : String)
      → lookup a (register dial peer port servers s).1.addr_store
        ≡ (if str_eq addr a then some client else lookup a s.addr_store)
  client-register servers s a =
      rw (register-SameAddrs dial peer port known dialled servers s).2
        (unfold register_locked in lookup-insert addr a client s.addr_store)

  register-Holds :
      (servers : List String) (s : Service) (d : Directory)
      → GrowsAt (some (addr, record { client = client; names = servers })) d
      → Holds s d
      → Holds
          (register dial peer port servers s).1
          (put (some (addr, record { client = client; names = servers })) d)
  register-Holds servers s d grows h = record {
    clients = λ a. ground (arith, client-register servers s a, h.clients a);
    registered = λ a.
        ground (arith, names-register dial peer port known dialled servers s a, h.registered a);
    listed = λ a name. ground (
      arith,
      elem-register dial peer port known dialled servers s a name,
      h.listed a name,
      grows name,
      eq_iff addr a,
    );
  }

  started-known :
      (servers : List String)
      → started dial peer port servers ≡ some (addr, record { client = client; names = servers })
  unfolding started
  started-known servers = rw (known, started) (rw dialled refl)

pub registration-Holds :
    (dial : String → Option Client) (peer : Option Peer) (port : String) (servers : List String)
    (s : Service) (d : Directory)
    → GrowsAt (started dial peer port servers) d
    → Holds s d
    → Holds (register dial peer port servers s).1 (put (started dial peer port servers) d)
unfolding started register
registration-Holds dial peer port servers s d grows h =
    elim (Option-cases (client_addr peer port)) [
      | inl e ↦ rw (e, register, started) h
      | inr (addr, e) ↦ elim (Option-cases (dial addr)) [
        | inl e' ↦ rw (e, register, started) (rw (e', register, started) h)
        | inr (client, e') ↦
            subst (λ o. GrowsAt o d → Holds (register dial peer port servers s).1 (put o d))
              (sym (started-known dial peer port e e' servers))
              (λ grown. register-Holds dial peer port e e' servers s d grown h) grows
      ]
    ]

module _ (ping : Client → Bool) where
  client-perform_health_check :
      (order : List String) (s : Service) (a : String)
      → lookup a (perform_health_check ping order s).0.addr_store ≡ (
          if elem a order && not (is_service_healthy ping a s) then none else lookup a s.addr_store)
  unfolding perform_health_check elem is_service_healthy
  client-perform_health_check [] s a = refl
  client-perform_health_check (b ∷ order) s a = ground (
    arith,
    client-perform_health_check order s a,
    client-perform_health_check order (handle_unhealthy_service b s).0 a,
    client-handle_unhealthy_service b s a,
    eq_iff b a,
  )

  names-perform_health_check :
      (order : List String) (s : Service) (a : String)
      → read (perform_health_check ping order s).0.s_addr_to_s_names a ≡ (
          if elem a order && not (is_service_healthy ping a s)
          then []
          else read s.s_addr_to_s_names a)
  unfolding perform_health_check elem is_service_healthy
  names-perform_health_check [] s a = refl
  names-perform_health_check (b ∷ order) s a = ground (
    arith,
    names-perform_health_check order s a,
    names-perform_health_check order (handle_unhealthy_service b s).0 a,
    client-handle_unhealthy_service b s a,
    names-handle_unhealthy_service b s a,
    eq_iff b a,
  )

  pub health_check-Holds :
      (order : List String) (s : Service) (d : Directory)
      → IsConsistent s
      → Holds s d
      → Holds
          (perform_health_check ping order s).0
          (λ a. if elem a order then alive ping (d a) else d a)
  unfolding is_service_healthy elem
  health_check-Holds order s d v h = record {
    clients =
        λ a. ground (arith, client-perform_health_check order s a, h.clients a, Option-cases (d a));
    registered = λ a. ground (
      arith,
      names-perform_health_check order s a,
      h.registered a,
      h.clients a,
      Option-cases (d a),
    );
    listed = λ a name. ground (
      arith,
      elem-perform_health_check ping order s a name v (Holds-IsExact h),
      h.listed a name,
      h.clients a,
      Option-cases (d a),
    );
  }
