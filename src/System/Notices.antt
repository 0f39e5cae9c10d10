-- ===== src/System/Notices.antt =====
-- What the program tells the network over mDNS on its own account.
use wlr_remote.Base.{List, [], ◌∷◌, ◌++◌, ℤ}
use wlr_remote.System.Types.{MdnsRecord}
use wlr_remote.System.Event.{
  Trace, mdns_announce, mdns_goodbye, mdns_answer_unicast, mdns_answer_multicast,
}

-- A socket, a record and those that accompany it: announced on the socket, or retracted.
pub data Notice : Type 0 where
  announced retracted : ℤ → MdnsRecord → List MdnsRecord → Notice

-- The announcements and retractions, the newest first.
abbrev pub notices : Trace → List Notice
notices [] = []
notices (mdns_announce fd buffer size r extra ∷ t) = announced fd r extra ∷ notices t
notices (mdns_goodbye fd buffer size r extra ∷ t) = retracted fd r extra ∷ notices t
notices (_ ∷ t) = notices t

-- All records that were sent, in announcements, retractions and answers, the newest first.
abbrev pub told : Trace → List MdnsRecord
told [] = []
told (mdns_announce fd buffer size r extra ∷ t) = r ∷ extra ++ told t
told (mdns_goodbye fd buffer size r extra ∷ t) = r ∷ extra ++ told t
told (mdns_answer_unicast fd from size id type name r extra ∷ t) = r ∷ extra ++ told t
told (mdns_answer_multicast fd size r extra ∷ t) = r ∷ extra ++ told t
told (_ ∷ t) = told t

-- A socket, a record, and the records that accompany it.
abbrev pub Reach : Type 0
Reach = ℤ × MdnsRecord × List MdnsRecord

abbrev pub announcements : List Reach → List Notice
announcements [] = []
announcements ((fd, r, extra) ∷ rest) = announced fd r extra ∷ announcements rest

abbrev pub retractions : List Reach → List Notice
retractions [] = []
retractions ((fd, r, extra) ∷ rest) = retracted fd r extra ∷ retractions rest
