-- ===== src/Hub/Acts/Runs.antt =====
-- About runs of requests.
use wavvon_server.Base.{String, true, false, ◌≡◌, List, [], ◌∷◌, arith, All}
use wavvon_server.Hub.Db.{Db}
use wavvon_server.Hub.Permissions.Caller.{has, user_permissions}
use wavvon_server.Hub.Acts.{
  Request, Act, perform, run, creates_role, updates_role, deletes_role, assigns_role, removes_role,
  puts_permissions, clears_permissions, bans, unbans, mutes, unmutes, times_out, kicks, voice_mutes,
  voice_unmutes, sets_talk_power, channel_bans, channel_unbans, channel_voice_mutes,
  channel_voice_unmutes, raises_hand, lowers_hand,
}
use wavvon_server.Hub.Acts.Keep.{
  put_channel_permissions-same, delete_channel_permissions-same, unban_user-same, mute_user-same,
  unmute_user-same, timeout_user-same, voice_mute-same, voice_unmute-same, set_talk_power-same,
  channel_ban-same, channel_unban-same, channel_voice_mute-same, channel_voice_unmute-same,
  raise_hand-same, lower_hand-same,
}
use wavvon_server.Hub.Acts.Sound.{IsSound}
use wavvon_server.Hub.Acts.Taken.{
  delete_role-IsTaken, remove_role-IsTaken, kick_user-IsTaken, ban_user-IsTaken,
}
use wavvon_server.Hub.Acts.Fair.{
  IsFair, IsFair-taken, IsFair-same, assign_role-IsFair, update_role-IsFair, create_role-IsFair,
}

perform-IsFair :
    (user : String) (req : Request) (db : Db) → IsSound db → IsFair user db (perform user req db)
unfolding perform
perform-IsFair u (creates_role req id now) db s = create_role-IsFair u req id now db s
perform-IsFair u (updates_role id req) db s = update_role-IsFair u id req db s
perform-IsFair u (deletes_role id) db s = IsFair-taken u db _ (delete_role-IsTaken u id db s)
perform-IsFair u (assigns_role key id now) db s = assign_role-IsFair u key id now db s
perform-IsFair u (removes_role key id) db s =
    IsFair-taken u db _ (remove_role-IsTaken u key id db s)
perform-IsFair u (puts_permissions c id req now) db s =
    IsFair-same u db _ s (put_channel_permissions-same u c id req now db)
perform-IsFair u (clears_permissions c id) db s =
    IsFair-same u db _ s (delete_channel_permissions-same u c id db)
perform-IsFair u (bans req now) db s = IsFair-taken u db _ (ban_user-IsTaken u req now db s)
perform-IsFair u (unbans key) db s = IsFair-same u db _ s (unban_user-same u key db)
perform-IsFair u (mutes req now) db s = IsFair-same u db _ s (mute_user-same u req now db)
perform-IsFair u (unmutes key) db s = IsFair-same u db _ s (unmute_user-same u key db)
perform-IsFair u (times_out req now) db s = IsFair-same u db _ s (timeout_user-same u req now db)
perform-IsFair u (kicks key) db s = IsFair-taken u db _ (kick_user-IsTaken u key db s)
perform-IsFair u (voice_mutes key reason now) db s =
    IsFair-same u db _ s (voice_mute-same u key reason now db)
perform-IsFair u (voice_unmutes key) db s = IsFair-same u db _ s (voice_unmute-same u key db)
perform-IsFair u (sets_talk_power c n) db s = IsFair-same u db _ s (set_talk_power-same u c n db)
perform-IsFair u (channel_bans c key reason now) db s =
    IsFair-same u db _ s (channel_ban-same u c key reason now db)
perform-IsFair u (channel_unbans c key) db s = IsFair-same u db _ s (channel_unban-same u c key db)
perform-IsFair u (channel_voice_mutes c key now) db s =
    IsFair-same u db _ s (channel_voice_mute-same u c key now db)
perform-IsFair u (channel_voice_unmutes c key) db s =
    IsFair-same u db _ s (channel_voice_unmute-same u c key db)
perform-IsFair u (raises_hand c id now) db s = IsFair-same u db _ s (raise_hand-same u c id now db)
perform-IsFair u (lowers_hand c key) db s = IsFair-same u db _ s (lower_hand-same u c key db)

-- Whatever is asked of a sound hub, and whatever it answers, it stays sound: the owner role is
-- there and on top, somebody holds it, no assignment stands twice, and every grant is of a role.
pub run-IsSound : (acts : List Act) (db : Db) → IsSound db → IsSound (run acts db)
unfolding run
run-IsSound [] db s = s
run-IsSound (a ∷ acts) db s =
    run-IsSound acts (perform a.actor a.request db) (perform-IsFair a.actor a.request db s).sound

-- No run of requests to a sound hub makes an owner: whoever owns the hub after it did before.
pub run-no_new_owner :
    (acts : List Act) (db : Db) (u : String)
    → IsSound db
    → (user_permissions (run acts db) u).is_owner ≡ true
    → (user_permissions db u).is_owner ≡ true
unfolding run
run-no_new_owner [] db u s e = e
run-no_new_owner (a ∷ acts) db u s e =
    let fair = perform-IsFair a.actor a.request db s in
    fair.owners u (run-no_new_owner acts (perform a.actor a.request db) u fair.sound e)

-- One act of somebody who lacks the permission.
has-IsFair :
    (actor : String) (db d : Db) (u p : String)
    → IsFair actor db d
    → has (user_permissions db actor) p ≡ false
    → has (user_permissions d u) p ≡ true
    → has (user_permissions db u) p ≡ true
unfolding has
has-IsFair actor db d u p h lacks e = ground (arith, h.owners u, h.gain u p)

-- None of the actors has the permission.
abbrev pub IsPowerless : List Act → String → Db → Type 0
IsPowerless acts p db = All (λ a. has (user_permissions db a.actor) p ≡ false) acts

IsPowerless-IsFair :
    (actor : String) (db d : Db) (p : String) (acts : List Act)
    → IsFair actor db d
    → has (user_permissions db actor) p ≡ false
    → IsPowerless acts p db
    → IsPowerless acts p d
IsPowerless-IsFair actor db d p [] h lacks k = tt
IsPowerless-IsFair actor db d p (a ∷ acts) h lacks k = (
  ground (arith, has-IsFair actor db d a.actor p h lacks),
  IsPowerless-IsFair actor db d p acts h lacks k.1,
)

-- No coalition raises itself: where none of the actors of a run has a permission on a sound hub,
-- whoever has it after the run had it before.
pub run-no_escalation :
    (acts : List Act) (db : Db) (u p : String)
    → IsSound db
    → IsPowerless acts p db
    → has (user_permissions (run acts db) u) p ≡ true
    → has (user_permissions db u) p ≡ true
unfolding run
run-no_escalation [] db u p s k e = e
run-no_escalation (a ∷ acts) db u p s k e =
    let d : Db = perform a.actor a.request db in
    let fair = perform-IsFair a.actor a.request db s in
    has-IsFair a.actor db d u p fair k.0 (
      run-no_escalation acts d u p fair.sound (IsPowerless-IsFair a.actor db d p acts fair k.0 k.1)
        e)
