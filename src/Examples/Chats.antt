-- ===== src/Examples/Chats.antt =====
-- The theorems on requests, groups and blocks at concrete calls.
use drawback_backend.Prelude.{
  true, false, none, some, ◌≡◌, ◌≢◌, refl, ap, arith, inl, inr, ◌&&◌, any, select, find_one, count,
  ◌==◌,
}
use drawback_backend.Schema.Entities.{ChatRequest}
use drawback_backend.World.{ok, ◌>>=◌}
use drawback_backend.World.Realtime.{chat_room}
use drawback_backend.Users.Queries.{find_by_id, find_by_display_name, is_blocked}
use drawback_backend.Users.Blocks.{block_user, add_block, blocks_of, insert_block}
use drawback_backend.Users.Blocks.Refusal.{
  block_user_separates, block_user_silences, block_user_bars,
}
use drawback_backend.Chat.Requests.{
  create_request, find_request, get_accepted_room_for_user, close_rooms_between_users, close_rooms,
  accepted_between,
}
use drawback_backend.Chat.Requests.Access.{
  MayEnter, get_accepted_room_for_user_sound, get_accepted_room_for_user_complete,
}
use drawback_backend.Chat.Requests.Closing.{is_open}
use drawback_backend.Realtime.Rooms.{force_close_room, emit_peers_left, users_of}
use drawback_backend.Chat.Steps.{RequestCall, RequestStep}
use drawback_backend.Chat.GroupSteps.{GroupCall, GroupStep}
use drawback_backend.Chat.Steps.Soundness.{IsSound as RequestsAreSound}
use drawback_backend.Chat.GroupSteps.Tables.{IsSound as GroupsAreSound}
use drawback_backend.Chat.Machine.{
  FreshRequest, FreshGroup, perform_request, perform_group, perform_request-RequestStep,
  perform_group-GroupStep, RequestHistory, GroupHistory, RequestHistory-IsSound,
  GroupHistory-IsSound,
}
use drawback_backend.Examples.{same_text, no_rows, tables, empty_world, busy_world, talk, ada, bob}

abbrev asks : RequestCall
asks = RequestCall.creates 5 100 1 "bob"

abbrev founds_group : GroupCall
founds_group = GroupCall.founds 5 6 100 1 "club"

asks-Fresh : FreshRequest asks no_rows
unfolding any
asks-Fresh = refl

founds_group-Fresh : FreshGroup founds_group no_rows
unfolding any
founds_group-Fresh = (refl, refl)

perform_request-RequestStep_example :
    RequestStep same_text no_rows (perform_request same_text asks empty_world).db asks
perform_request-RequestStep_example =
    perform_request-RequestStep same_text asks empty_world asks-Fresh

perform_group-GroupStep_example :
    GroupStep same_text no_rows (perform_group same_text founds_group empty_world).db founds_group
perform_group-GroupStep_example =
    perform_group-GroupStep same_text founds_group empty_world founds_group-Fresh

no_rows-RequestsAreSound : RequestsAreSound no_rows
unfolding count
no_rows-RequestsAreSound = record {
  one_id = λ k. omega arith;
  two_users = tt;
  one_pending = λ a b. omega arith;
  backed = tt;
  one_saved = λ k u. omega arith;
}

no_rows-GroupsAreSound : GroupsAreSound no_rows
unfolding count
no_rows-GroupsAreSound = record {
  one_group = λ k. omega arith;
  one_row = λ k. omega arith;
  one_invitation = λ k. omega arith;
  one_member = λ g u. omega arith;
  one_pending = λ g u. omega arith;
  owned = tt;
  housed = tt;
  admitted = tt;
}

RequestHistory-IsSound_example : RequestsAreSound (perform_request same_text asks empty_world).db
RequestHistory-IsSound_example =
    RequestHistory-IsSound same_text empty_world (perform_request same_text asks empty_world)
      (RequestHistory.call RequestHistory.start asks asks-Fresh) no_rows-RequestsAreSound

GroupHistory-IsSound_example : GroupsAreSound (perform_group same_text founds_group empty_world).db
GroupHistory-IsSound_example =
    GroupHistory-IsSound same_text empty_world (perform_group same_text founds_group empty_world)
      (GroupHistory.call GroupHistory.start founds_group founds_group-Fresh) no_rows-GroupsAreSound

ada-MayEnter : MayEnter busy_world 1 1 talk
unfolding find_request find_one is_blocked count
ada-MayEnter = record { found = refl; participant = refl; accepted = refl; unblocked = refl }

get_accepted_room_for_user_complete_example :
    get_accepted_room_for_user 1 1 busy_world ≡ (ok (some (chat_room 1)), busy_world)
get_accepted_room_for_user_complete_example =
    get_accepted_room_for_user_complete busy_world 1 1 talk ada-MayEnter

ada_gets_room : (get_accepted_room_for_user 1 1 busy_world).0 ≡ ok (some (chat_room 1))
ada_gets_room = ap (λ r. r.0) get_accepted_room_for_user_complete_example

get_accepted_room_for_user_sound_example :
    (r : ChatRequest) × MayEnter busy_world 1 1 r
    × (chat_room 1 ≡ chat_room r.id)
    × ((get_accepted_room_for_user 1 1 busy_world).1 ≡ busy_world)
get_accepted_room_for_user_sound_example =
    get_accepted_room_for_user_sound busy_world 1 1 (chat_room 1) ada_gets_room

ada_blocks_bob : (block_user 4 100 1 2 busy_world).0 ≡ ok tt
unfolding block_user add_block find_by_id find_one close_rooms_between_users select close_rooms
    force_close_room emit_peers_left users_of ◌>>=◌ insert_block
ada_blocks_bob = refl

not_yet_blocked : find_one (blocks_of 1 2) tables.user_blocks ≡ none
unfolding find_one
not_yet_blocked = refl

talk_is_accepted : any (λ r. accepted_between 1 2 r && r.id == 1) tables.chat_requests ≡ true
unfolding any
talk_is_accepted = refl

block_user_separates_example :
    (is_blocked 1 2 (block_user 4 100 1 2 busy_world).1.db ≡ true)
    × (is_blocked 2 1 (block_user 4 100 1 2 busy_world).1.db ≡ true)
    × (is_open 1 (block_user 4 100 1 2 busy_world).1 ≡ false)
block_user_separates_example =
    block_user_separates 4 100 1 2 1 busy_world ada_blocks_bob not_yet_blocked talk_is_accepted

bob_asks :
    (find_by_id 2 (block_user 4 100 1 2 busy_world).1.db ≡ some bob)
    × (find_by_display_name same_text "ada" (block_user 4 100 1 2 busy_world).1.db ≡ some ada)
unfolding find_by_display_name block_user add_block find_by_id find_one close_rooms_between_users
    select close_rooms force_close_room emit_peers_left users_of insert_block ◌>>=◌
bob_asks = (refl, refl)

block_user_silences_example :
    let w' = (block_user 4 100 1 2 busy_world).1 in
    (create_request same_text 5 200 2 "ada" w').1.db ≡ w'.db
block_user_silences_example =
    block_user_silences same_text 4 100 1 2 busy_world ada_blocks_bob 5 200 2 "ada" bob ada
      bob_asks.0 bob_asks.1 (inr (refl, refl))

talk_is_there : find_request 1 (block_user 4 100 1 2 busy_world).1.db ≡ some talk
unfolding find_request block_user add_block find_by_id find_one close_rooms_between_users select
    close_rooms force_close_room emit_peers_left users_of insert_block ◌>>=◌
talk_is_there = refl

block_user_bars_example :
    (get_accepted_room_for_user 1 2 (block_user 4 100 1 2 busy_world).1).0 ≢ ok (some (chat_room 1))
block_user_bars_example =
    block_user_bars 4 100 1 2 busy_world ada_blocks_bob 1 2 talk (chat_room 1) talk_is_there
      (inl (refl, refl))

no_block_yet : any (blocks_of 1 2) tables.user_blocks ≡ false
unfolding any
no_block_yet = refl
