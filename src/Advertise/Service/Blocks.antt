-- ===== src/Advertise/Service/Blocks.antt =====
-- src/advertise.c: the descriptors and the blocks of memory that a service names, how they are given
-- back, and the strings as they are made.
use wlr_remote.Base.{◌∙◌, refl, ℕ, ◌+◌, ◌-◌, ◌≡◌, arith, Bool, Option, none, some, ℤ, pos}
use wlr_remote.System.Types.{null}
use wlr_remote.System.Event.{Trace}
use wlr_remote.System.Env.{Env}
use wlr_remote.System.Ledger.{points, heap, faults}
use wlr_remote.System.Descriptors.{live, holds, mark}
use wlr_remote.Advertise.Types.{Service}
use wlr_remote.Advertise.Strings.{
  allocate, create_qualified_hostname, create_service_instance, with_hostname,
  create_service_strings,
}
use wlr_remote.Advertise.Service.{close_mdns_socket, destroy_service}

-- How often a service names the block.
abbrev pub owns : ℕ → Service → ℕ
owns p s =
    points s.self p
    + points s.hostname.str p
    + points s.service_instance.str p
    + points s.qualified_hostname.str p
    + points s.buffer p

-- What a service that was made owns, or that none was made.
abbrev pub owned : ℕ → Option Service → ℕ
owned p none = 0
owned p (some s) = owns p s

-- How often a service that was made names a descriptor.
abbrev pub service_holds : ℤ → Option Service → ℕ
service_holds fd none = 0
service_holds fd (some service) = holds fd service.socks

-- The pointers that creation fills are not yet set.
pub record IsFresh (s : Service) : Type 0 where
  pub no_hostname : s.hostname.str ≡ null
  pub no_instance : s.service_instance.str ≡ null
  pub no_qualified : s.qualified_hostname.str ≡ null
  pub no_buffer : s.buffer ≡ null

-- Taking `a` and then `b` out of `n` fails by as much as taking both at once.
pub shortfall : (a b n : ℕ) → (a - n) + (b - (n - a)) ≡ a + b - n
shortfall a b n = omega arith

shortfalls :
    (f a b c d e n : ℕ)
    → f
        + (a - n)
        + (b - (n - a))
        + (c - (n - a - b))
        + (d - (n - a - b - c))
        + (e - (n - a - b - c - d))
      ≡ f + (e + a + b + c + d - n)
shortfalls f a b c d e n =
    let two = shortfall a b n in
    let three = shortfall (a + b) c n in
    let four = shortfall (a + b + c) d n in
    let five = shortfall (a + b + c + d) e n in
    let n2 : n - a - b ≡ n - (a + b) = omega arith in
    let n3 : n - a - b - c ≡ n - (a + b + c) = omega (arith, n2) in
    let n4 : n - a - b - c - d ≡ n - (a + b + c + d) = omega (arith, n3) in
    let last : e + a + b + c + d ≡ a + b + c + d + e = omega arith in
    rw (n4, n3, n2, last) (omega (arith, two, three, four, five))

module _ (p : ℕ) where
  close_mdns_socket-heap : (fd : ℤ) (t : Trace) → heap p (close_mdns_socket fd t).1 ≡ heap p t
  unfolding close_mdns_socket
  close_mdns_socket-heap fd t = ground arith

  -- Destroying a service frees each of its blocks once, and nothing else.
  pub destroy_service-heap :
      (s : Service) (t : Trace) → heap p (destroy_service s t).1 ≡ heap p t - owns p s
  unfolding destroy_service
  destroy_service-heap s t =
      let u = (close_mdns_socket s.socks.v4 t).1 in
      omega (arith, close_mdns_socket-heap s.socks.v4 t, close_mdns_socket-heap s.socks.v6 u)

  close_mdns_socket-live :
      (fd : ℤ) (t : Trace)
      → let u = (close_mdns_socket fd t).1 in
        (live (pos p) u ≡ live (pos p) t - mark fd (pos p))
        × (faults p u ≡ faults p t + (mark fd (pos p) - live (pos p) t))
  unfolding close_mdns_socket
  close_mdns_socket-live fd t = ground arith

  -- What is closed is open and what is freed is allocated, as far as the service names no more than
  -- there is.
  pub destroy_service-faults :
      (s : Service) (t : Trace)
      → faults p (destroy_service s t).1
        ≡ faults p t + (holds (pos p) s.socks - live (pos p) t) + (owns p s - heap p t)
  unfolding destroy_service
  destroy_service-faults s t =
      let u = (close_mdns_socket s.socks.v4 t).1 in
      let v = (close_mdns_socket s.socks.v6 u).1 in
      let (live_u, faults_u) = close_mdns_socket-live s.socks.v4 t in
      let (live_v, faults_v) = close_mdns_socket-live s.socks.v6 u in
      let heap_v : heap p v ≡ heap p t =
        close_mdns_socket-heap s.socks.v6 u ∙ close_mdns_socket-heap s.socks.v4 t in
      let closed : faults p v ≡ faults p t + (holds (pos p) s.socks - live (pos p) t) =
        omega
          (arith, shortfall (mark s.socks.v4 (pos p)) (mark s.socks.v6 (pos p)) (live (pos p) t)) in
      shortfalls (faults p v) (points s.hostname.str p) (points s.service_instance.str p)
        (points s.qualified_hostname.str p) (points s.buffer p) (points s.self p) (heap p v)
      ∙ rw (closed, heap_v) refl

  module _ (env : Env) where
    pub allocate-heap :
        (size : ℕ) (t : Trace)
        → heap p (allocate env size t).1 ≡ heap p t + points (allocate env size t).0 p
    unfolding allocate
    allocate-heap size t = ground arith

    -- A step that may set pointers of the service keeps the balance.
    abbrev pub IsBalanced : Service → Trace → Bool × Service → Trace → Type 0
    IsBalanced s t made t' = heap p t' + owns p s ≡ heap p t + owns p made.1

    pub create_service_strings-IsBalanced :
        (s : Service) (t : Trace)
        → IsFresh s
        → let (made, t') = create_service_strings env s t in
          IsBalanced s t made t' × (made.1.buffer ≡ s.buffer)
    unfolding create_service_strings with_hostname create_service_instance allocate
        create_qualified_hostname
    create_service_strings-IsBalanced s t h = ground arith
