-- ===== src/Status/Moves/Tests.antt =====
-- The moves of src/status/moves.ts at concrete reads.
use openwrt_configurator.Prelude.{
  Text, codes, none, some, [], ◌∷◌, Bool, true, false, lookup, All, ◌≡◌, refl,
}
use openwrt_configurator.Status.Moves.{
  Place, Moves, Client, wifi, roamed, left, online, update_moves,
}
use openwrt_configurator.Status.Moves.Bounds.{FewMoves, FewMisses, update_moves-bounded}
use openwrt_configurator.Status.Moves.Gone.{update_moves-update_moves}

abbrev phone : Text
phone = codes "aa:01"

abbrev attic : Place
attic = record {
  wired = false;
  access_point = some (codes "attic");
  band = some (codes "5 GHz");
  missed = none;
  missed_since = none;
}

abbrev seen : Moves
seen = record { places = (phone, attic) ∷ []; by_client = [] }

abbrev everyone : Text → Bool
everyone mac = true

abbrev in_hall : Client
in_hall = record { mac = phone; is_online = true; connection = wifi (codes "hall") none }

roamed_once :
    (update_moves (some seen) (in_hall ∷ []) 10 everyone).by_client
    ≡ (
      phone,
      record {
        at = 10;
        kind = roamed;
        text = codes "Roamed from attic to hall";
        access_point = some (codes "hall");
      }
          ∷ [],
    )
      ∷ []
unfolding update_moves
roamed_once = refl

left_then :
    (update_moves (some (update_moves (some seen) [] 10 everyone)) [] 20 everyone).by_client
    ≡ (
      phone,
      record {
        at = 10;
        kind = left;
        text = codes "Left attic";
        access_point = some (codes "attic");
      }
          ∷ [],
    )
      ∷ []
unfolding update_moves
left_then = refl

update_moves-bounded_example :
    All FewMisses (update_moves (some seen) (in_hall ∷ []) 10 everyone).places
    × All (FewMoves everyone 10) (update_moves (some seen) (in_hall ∷ []) 10 everyone).by_client
update_moves-bounded_example = update_moves-bounded (some seen) (in_hall ∷ []) 10 everyone

update_moves-update_moves_example :
    (lookup phone (update_moves (some seen) [] 10 everyone).places
      ≡ some (record attic { missed = some 1; missed_since = some 10 }))
    × (lookup phone
          (update_moves (some (update_moves (some seen) [] 10 everyone)) [] 20 everyone).places
        ≡ none)
unfolding lookup online
update_moves-update_moves_example =
    update_moves-update_moves seen [] [] 10 20 everyone phone attic refl refl refl refl refl
