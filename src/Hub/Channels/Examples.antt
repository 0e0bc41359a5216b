-- ===== src/Hub/Channels/Examples.antt =====
-- The theorems about channels, applied to the sample hub.
use wavvon_server.Base.{
  ◌≡◌, refl, false, String, none, some, inl, inr, arith, str_eq, eq_iff, Bool-cases,
}
use wavvon_server.Hub.Permissions.Cascade.{parent_of}
use wavvon_server.Hub.Channels.{delete_channel}
use wavvon_server.Hub.Channels.Checks.{UpdateChannelRequest}
use wavvon_server.Hub.Channels.Update.{update_channel}
use wavvon_server.Hub.Channels.Forest.{root, under, IsAcyclic}
use wavvon_server.Hub.Channels.Moves.{update_channel-IsAcyclic}
use wavvon_server.Hub.Channels.Deletion.{IsReferring, delete_channel-IsReferring}
use wavvon_server.Hub.Sample.{sample}

sample-parent : (c : String) → str_eq c "lounge" ≡ false → parent_of sample.channels c ≡ none
unfolding parent_of
sample-parent c e = ground (arith, eq_iff "lounge" c, eq_iff c "lounge", eq_iff "staff" c)

sample-IsAcyclic : IsAcyclic (parent_of sample.channels)
unfolding parent_of
sample-IsAcyclic c = elim (Bool-cases (str_eq c "lounge")) [
  | inl e ↦ under "staff" (ground (arith, eq_iff "lounge" c, eq_iff c "lounge")) (root refl)
  | inr e ↦ root (sample-parent c e)
]

abbrev no_change : UpdateChannelRequest
no_change = record {
  name = none;
  description = none;
  parent_id = none;
  icon = none;
  color = none;
  custom_icon_svg = none;
  min_talk_power = none;
  retention_days = none;
  banner_url = none;
  banner_file_id = none;
  forum_require_tag = none;
  nsfw = none;
  channel_type = none;
}

-- Alice wants the staff channel under the lounge, which is under it.
update_channel-IsAcyclic_example : IsAcyclic (
    parent_of
      (update_channel "alice" "staff"
        (record no_change { parent_id = some (some "lounge") })
        sample).0.channels)
unfolding parent_of
update_channel-IsAcyclic_example =
    update_channel-IsAcyclic "alice" "staff" (record no_change { parent_id = some (some "lounge") })
      sample sample-IsAcyclic (λ p e. ground arith)

-- The lounge, its ban and its overwrite go with the staff channel.
delete_channel-IsReferring_example : IsReferring (delete_channel "alice" "staff" sample).0
delete_channel-IsReferring_example =
    delete_channel-IsReferring "alice" "staff" sample (record {
      parents = refl;
      bans = refl;
      settings = refl;
      overwrites = refl;
      attachments = refl;
    })
