-- ===== src/Status/Moves.antt =====
-- src/status/moves.ts: where each client was at the last read, and its latest moves. A time is in whole
-- milliseconds; of a client's view only what is read here is kept.
pub mod Bounds
pub mod Gone
pub mod Tests
use openwrt_configurator.Prelude.{
  Text, ℕ, ◌+◌, ◌-◌, codes, Option, none, some, List, [], ◌∷◌, ◌++◌, map, Bool, true, false, not,
  ◌&&◌, ltb, leb, is_some, is_empty, select, take, Object, lookup, put, keys, unique, text_eq, join,
  or_else, if◌then◌else◌,
}

pub data MoveKind : Type 0 where
  joined left roamed band_moved : MoveKind

pub record ClientMove : Type 0 where
  pub at : ℕ
  pub kind : MoveKind
  pub text : Text
  pub access_point : Option Text

-- `missed` is the number of reads that have missed it since, absent when none has.
pub record Place : Type 0 where
  pub wired : Bool
  pub access_point : Option Text
  pub band : Option Text
  pub missed : Option ℕ
  pub missed_since : Option ℕ

pub record Moves : Type 0 where
  pub places : Object Place
  pub by_client : Object (List ClientMove)

abbrev pub moves_kept : ℕ
moves_kept = 30

abbrev pub moves_for_ms : ℕ
moves_for_ms = 604800000

abbrev pub gone_after_misses : ℕ
gone_after_misses = 2

pub data Connection : Type 0 where
  wifi : (access_point : Text) (band : Option Text) → Connection
  cable : Connection

pub record Client : Type 0 where
  pub mac : Text
  pub is_online : Bool
  pub connection : Connection

-- A field that is left out when empty.
abbrev pub kept_text : Option Text → Option Text
kept_text none = none
kept_text (some t) = if is_empty t then none else some t

abbrev pub place_of : Client → Place
place_of c = elim c.connection [
  | wifi ap b ↦ record {
    wired = false;
    access_point = some ap;
    band = kept_text b;
    missed = none;
    missed_since = none;
  }
  | cable ↦ record {
    wired = true;
    access_point = none;
    band = none;
    missed = none;
    missed_since = none;
  }
]

-- What is not empty, of one that may be absent.
abbrev pub shown : Text → Option Text → List Text
shown before none = []
shown before (some t) = if is_empty t then [] else (before ++ t) ∷ []

unfoldable pub where_is : Place → Text
unfolding join
where_is p =
    if p.wired
    then codes "by cable"
    else join (codes " · ") (shown (codes "on ") p.access_point ++ shown [] p.band)

-- `${value}` of a text that may be absent.
abbrev pub shown_or_undefined : Option Text → Text
shown_or_undefined none = codes "undefined"
shown_or_undefined (some t) = t

abbrev pub same_text : Option Text → Option Text → Bool
same_text none none = true
same_text (some a) (some b) = text_eq a b
same_text _ _ = false

-- `was.band && now.band && was.band !== now.band`.
abbrev pub is_other_band : Option Text → Option Text → Bool
is_other_band (some a) (some b) = not (is_empty a) && not (is_empty b) && not (text_eq a b)
is_other_band _ _ = false

-- ` · ${band}`, where there is one.
abbrev pub dotted_band : Option Text → Text
dotted_band b = join [] (shown (codes " · ") b)

abbrev pub roam : Place → Place → ℕ → ClientMove
roam was now at = record {
  at = at;
  kind = roamed;
  text =
      codes "Roamed from "
      ++ shown_or_undefined was.access_point
      ++ codes " to "
      ++ shown_or_undefined now.access_point
      ++ dotted_band now.band;
  access_point = kept_text now.access_point;
}

abbrev pub change_band : Place → ℕ → ClientMove
change_band now at = record {
  at = at;
  kind = band_moved;
  text =
      codes "Moved to "
      ++ shown_or_undefined now.band
      ++ codes " on "
      ++ shown_or_undefined now.access_point;
  access_point = kept_text now.access_point;
}

abbrev pub moved : Place → Place → ℕ → Option ClientMove
moved was now at =
    if was.wired
    then none
    else (if now.wired
        then none
        else (if not (same_text was.access_point now.access_point)
            then some (roam was now at)
            else (if is_other_band was.band now.band then some (change_band now at) else none)))

-- What one client that is there did since the last read.
unfoldable pub move_of : Option Place → Place → ℕ → Option ClientMove
unfolding where_is text_eq join
move_of none now at = some (record {
  at = at;
  kind = joined;
  text = codes "Joined " ++ where_is now;
  access_point = kept_text now.access_point;
})
move_of (some was) now at = moved was now at

-- A client after a read: its place where it is still kept, and its move.
pub record Stepped : Type 0 where
  pub mac : Text
  pub place : Option Place
  pub move : Option ClientMove

abbrev pub nowhere : Place
nowhere = record {
  wired = false;
  access_point = none;
  band = none;
  missed = none;
  missed_since = none;
}

-- ` ${accessPoint}` of a client by Wi-Fi.
abbrev pub left_from : Place → Text
left_from was = if was.wired then [] else join [] (shown (codes " ") was.access_point)

abbrev pub leave : Place → ℕ → ClientMove
leave was at = record {
  at = or_else was.missed_since at;
  kind = left;
  text = codes "Left" ++ left_from was;
  access_point = kept_text was.access_point;
}

-- A client that a read misses.
abbrev pub missed_step : Text → Place → ℕ → Stepped
missed_step mac was at =
    let missed = or_else was.missed 0 + 1 in
    if leb gone_after_misses missed
    then record { mac = mac; place = none; move = some (leave was at) }
    else record {
      mac = mac;
      place =
          some (record was {
            missed = some missed;
            missed_since = some (or_else was.missed_since at);
          });
      move = none;
    }

unfoldable pub step_client : Text → Option Place → Option Place → ℕ → Stepped
unfolding move_of join
step_client mac was (some now) at = record {
  mac = mac;
  place = some now;
  move = move_of was now at;
}
step_client mac was none at = missed_step mac (or_else was nowhere) at

-- `new Map(…)` of the clients that are online: a later one of a MAC counts.
unfoldable pub online_from : Object Place → List Client → Object Place
unfolding put
online_from o [] = o
online_from o (c ∷ cs) =
    let after = online_from (put c.mac (place_of c) o) cs in
    let skipped = online_from o cs in if c.is_online then after else skipped

unfoldable pub online : List Client → Object Place
unfolding online_from
online clients = online_from [] clients

unfoldable pub stepped_of : Object Place → Object Place → ℕ → List Text → List Stepped
unfolding step_client lookup
stepped_of places now at [] = []
stepped_of places now at (mac ∷ macs) =
    step_client mac (lookup mac places) (lookup mac now) at ∷ stepped_of places now at macs

abbrev pub told : Stepped → Object (List ClientMove) → Object (List ClientMove)
told s all = elim s.move [ none ↦ all | some m ↦ put s.mac (m ∷ or_else (lookup s.mac all) []) all ]

unfoldable pub told_all : List Stepped → Object (List ClientMove) → Object (List ClientMove)
unfolding put lookup
told_all [] all = all
told_all (s ∷ ss) all = told_all ss (told s all)

unfoldable pub kept_places : List Stepped → Object Place
kept_places [] = []
kept_places (s ∷ ss) = elim s.place [ none ↦ kept_places ss | some p ↦ (s.mac, p) ∷ kept_places ss ]

abbrev pub is_recent : ℕ → ClientMove → Bool
is_recent at m = ltb (at - m.at) moves_for_ms

unfoldable pub latest : ℕ → List ClientMove → List ClientMove
unfolding select take
latest at moves = take moves_kept (select (is_recent at) moves)

-- Only the remembered clients' moves, and no empty list.
unfoldable pub kept_moves : (Text → Bool) → ℕ → Object (List ClientMove) → Object (List ClientMove)
unfolding latest
kept_moves remembered at [] = []
kept_moves remembered at ((mac, moves) ∷ all) =
    let rest = kept_moves remembered at all in
    if remembered mac && not (is_empty (latest at moves))
    then (mac, latest at moves) ∷ rest
    else rest

unfoldable pub update_moves : Option Moves → List Client → ℕ → (Text → Bool) → Moves
unfolding online stepped_of told_all kept_places kept_moves unique keys
update_moves none clients at remembered = record { places = online clients; by_client = [] }
update_moves (some moves) clients at remembered =
    let now = online clients in
    let stepped = stepped_of moves.places now at (unique (keys moves.places ++ keys now)) in
    record {
      places = kept_places stepped;
      by_client = kept_moves remembered at (told_all stepped moves.by_client);
    }
