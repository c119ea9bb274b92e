-- ===== src/Connector/Rt/Tickets.antt =====
-- The tickets of internal/connector/rt.go: their references, what of one crosses into evidence, and the owners of
-- a page. What encoding/json makes of the fields is given.
pub mod Owners
use mathlib.Core.List.{map}
use sroiaaa.Base.{
  ℕ, Bool, true, false, Option, none, some, List, [], ◌∷◌, ◌++◌, ◌||◌, Result, ok, err, ◌>>=◌,
  if◌then◌else◌, ltb, length, take,
}
use sroiaaa.Base.Text.{Text, codes, is_empty, lookup, member, trim_prefix}
use sroiaaa.Connector.Evidence.{EvidenceItem, ConnectorError, decode_response}

-- A reference as JSON: read as a string, or as an object with its id and its name.
pub record RefJson : Type 0 where
  pub plain : Option Text
  pub object : Option (Text × Text)

abbrev pub readable : Text × Text → Text
readable (id, name) = if is_empty name then id else name

-- UnmarshalJSON of rtRef.
unfoldable pub rt_ref : RefJson → Result ConnectorError Text
rt_ref r = elim r.plain [
  | some s ↦ ok s
  | none ↦ elim r.object [ some object ↦ ok (readable object) | none ↦ err decode_response ]
]

-- A reference that the ticket leaves out is "".
abbrev pub ref_field : Option RefJson → Result ConnectorError Text
ref_field none = ok []
ref_field (some r) = rt_ref r

pub record TicketJson : Type 0 where
  pub id : Option RefJson
  pub queue : Option RefJson
  pub owner : Option RefJson
  pub subject : Text
  pub status : Text
  pub created : Text
  pub last_updated : Text

pub record RtTicket : Type 0 where
  pub id : Text
  pub subject : Text
  pub status : Text
  pub queue : Text
  pub owner : Text
  pub created : Text
  pub last_updated : Text

unfoldable pub decode_ticket : TicketJson → Result ConnectorError RtTicket
decode_ticket t = do
  id ← ref_field t.id
  queue ← ref_field t.queue
  owner ← ref_field t.owner
  ok (record {
    id = id;
    subject = t.subject;
    status = t.status;
    queue = queue;
    owner = owner;
    created = t.created;
    last_updated = t.last_updated;
  })

unfoldable pub decode_tickets : List TicketJson → Result ConnectorError (List RtTicket)
decode_tickets [] = ok []
decode_tickets (t ∷ ts) = do
  ticket ← decode_ticket t
  tickets ← decode_tickets ts
  ok (ticket ∷ tickets)

-- `if value != "" { fields[key] = value }`.
abbrev pub present_field : Text → Text → List (Text × Text)
present_field key [] = []
present_field key (c ∷ s) = (key, c ∷ s) ∷ []

unfoldable pub normalize_ticket : RtTicket → EvidenceItem
normalize_ticket t = record {
  id = trim_prefix t.id (codes "ticket/");
  host = [];
  description = t.subject;
  severity = [];
  state = t.status;
  fields =
      present_field (codes "queue") t.queue
      ++ (present_field (codes "owner") t.owner
          ++ (present_field (codes "created") t.created
              ++ present_field (codes "last_updated") t.last_updated));
}

abbrev pub max_rt_owner_census : ℕ
max_rt_owner_census = 20

-- `item.Fields["owner"]`, "" where there is none.
abbrev pub text_or_empty : Option Text → Text
text_or_empty none = []
text_or_empty (some s) = s

unfoldable pub owner_of : EvidenceItem → Text
owner_of item = text_or_empty (lookup (codes "owner") item.fields)

-- The loop of ownersOnPage; `seen` holds the owners so far, which are the keys of the code's `seen`.
unfoldable pub distinct_owners : List Text → List EvidenceItem → List Text
distinct_owners seen [] = seen
distinct_owners seen (item ∷ items) =
    let owner = owner_of item in
    let skipped = distinct_owners seen items in
    let added = distinct_owners (seen ++ owner ∷ []) items in
    if is_empty owner then skipped else if member owner seen then skipped else added

unfoldable pub owners_on_page : List EvidenceItem → List Text × Bool
owners_on_page items =
    let owners = distinct_owners [] items in
    if ltb max_rt_owner_census (length owners)
    then (take max_rt_owner_census owners, true)
    else (owners, false)
