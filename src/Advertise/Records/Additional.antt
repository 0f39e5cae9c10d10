-- ===== src/Advertise/Records/Additional.antt =====
-- src/advertise.c, `build_additional`: what accompanies an answer.
use wlr_remote.Base.{
  ℕ, ◌≤◌, ◌≡◌, arith, Bool, true, false, not, ◌&&◌, ◌||◌, List, [], ◌∷◌, ◌++◌, length, ◌==◌,
  if◌then◌else◌,
}
use wlr_remote.System.Types.{MdnsRecord, is_inet, is_inet6}
use wlr_remote.System.Event.{Trace, log, unexpected_type}
use wlr_remote.Advertise.Types.{Service}
use wlr_remote.Advertise.Records.{
  build_additional, from_case_srv, from_case_a, from_case_txt, recordtype_a, recordtype_ptr,
  recordtype_txt, recordtype_aaaa, recordtype_srv,
}

-- The capacity of the array that the callers give.
abbrev pub additional_capacity : ℕ
additional_capacity = 4

-- A record under a condition.
abbrev pub only_if : Bool → MdnsRecord → List MdnsRecord
only_if true r = r ∷ []
only_if false r = []

-- The records that go with an answer of a type: the service's host for a PTR, the host's addresses
-- for whatever is not an address of that family itself, and always the description.
abbrev pub companions : Service → ℕ → List MdnsRecord
companions s type =
    only_if (type == recordtype_ptr) s.record_srv
    ++ (only_if
          (not (type == recordtype_a) && not (type == recordtype_txt) && is_inet s.addrs.v4.family)
          s.record_a
        ++ (only_if
              (not (type == recordtype_aaaa)
                && not (type == recordtype_txt)
                && is_inet6 s.addrs.v6.family)
              s.record_aaaa
            ++ s.record_txt ∷ []))

-- The five types that the switch names.
abbrev pub is_supported : ℕ → Bool
is_supported type =
    type == recordtype_ptr
    || type == recordtype_srv
    || type == recordtype_aaaa
    || type == recordtype_a
    || type == recordtype_txt

module _ (s : Service) (type : ℕ) (t : Trace) where
  -- For the types that the switch names the array holds the companions, in that order, and fits; for
  -- any other type nothing is written, with a message.
  pub build_additional-companions :
      (build_additional s type t
        ≡ (if is_supported type then (companions s type, t) else ([], log unexpected_type ∷ t)))
      × (length (build_additional s type t).0 ≤ additional_capacity)
  unfolding build_additional from_case_srv from_case_a from_case_txt
  build_additional-companions = (ground arith, ground arith)
