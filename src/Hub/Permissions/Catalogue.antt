-- ===== src/Hub/Permissions/Catalogue.antt =====
-- `CATALOGUE` and its constants in crates/hub/src/permissions.rs, and the validators that read
-- it.
pub mod Validators
use Prim.Native.String.{◌++◌}
use wavvon_server.Base.{
  String, Bool, true, false, not, List, [], ◌∷◌, map, Option, none, some, str_eq, contains, find,
  if◌then◌else◌,
}
use wavvon_server.Http.{Result, ok, fail, bad_request, ◌>>◌}

pub data Scope : Type 0 where
  hub hub_and_channel : Scope

unfoldable pub allows_channel : Scope → Bool
allows_channel hub = false
allows_channel hub_and_channel = true

pub record Permission : Type 0 where
  pub id : String
  pub scope : Scope

abbrev pub roles_manage : String
roles_manage = "roles.manage"

abbrev pub invites_manage : String
invites_manage = "invites.manage"

abbrev pub messages_read : String
messages_read = "messages.read"

abbrev pub channels_permissions : String
channels_permissions = "channels.permissions"

abbrev pub channels_manage : String
channels_manage = "channels.manage"

abbrev pub channels_appearance : String
channels_appearance = "channels.appearance"

abbrev pub forum_posts_manage : String
forum_posts_manage = "forum.posts.manage"

abbrev pub moderation_kick : String
moderation_kick = "moderation.kick"

abbrev pub moderation_mute : String
moderation_mute = "moderation.mute"

abbrev pub moderation_timeout : String
moderation_timeout = "moderation.timeout"

abbrev pub moderation_ban_temporary : String
moderation_ban_temporary = "moderation.ban.temporary"

abbrev pub moderation_ban_permanent : String
moderation_ban_permanent = "moderation.ban.permanent"

abbrev entry : Scope → String → Permission
entry s p = record { id = p; scope = s }

unfoldable pub catalogue : List Permission
catalogue =
    entry hub_and_channel "messages.read"
    ∷ entry hub_and_channel "messages.send"
    ∷ entry hub_and_channel "messages.manage"
    ∷ entry hub_and_channel "messages.masquerade"
    ∷ entry hub_and_channel "forum.posts.create"
    ∷ entry hub_and_channel "forum.posts.manage"
    ∷ entry hub_and_channel "channels.manage"
    ∷ entry hub_and_channel "channels.appearance"
    ∷ entry hub_and_channel "channels.permissions"
    ∷ entry hub_and_channel "voice.join"
    ∷ entry hub_and_channel "voice.screen_share"
    ∷ entry hub_and_channel "voice.camera"
    ∷ entry hub_and_channel "voice.soundboard.use"
    ∷ entry hub "voice.soundboard.manage"
    ∷ entry hub_and_channel "voice.move_members"
    ∷ entry hub "stickers.packs.manage"
    ∷ entry hub_and_channel "stickers.external"
    ∷ entry hub "stickers.moderate"
    ∷ entry hub "moderation.kick"
    ∷ entry hub_and_channel "moderation.mute"
    ∷ entry hub "moderation.timeout"
    ∷ entry hub_and_channel "moderation.ban.temporary"
    ∷ entry hub_and_channel "moderation.ban.permanent"
    ∷ entry hub "moderation.reports.read"
    ∷ entry hub "moderation.reports.review"
    ∷ entry hub "moderation.settings"
    ∷ entry hub "banlist.read"
    ∷ entry hub "banlist.sources.manage"
    ∷ entry hub "banlist.overrides"
    ∷ entry hub "banlist.settings"
    ∷ entry hub "roles.manage"
    ∷ entry hub "members.read"
    ∷ entry hub "hub.settings"
    ∷ entry hub "hub.appearance"
    ∷ entry hub "hub.admission"
    ∷ entry hub "invites.manage"
    ∷ entry hub_and_channel "events.create"
    ∷ entry hub_and_channel "events.manage"
    ∷ entry hub "certs.issue"
    ∷ entry hub "certs.revoke"
    ∷ entry hub "certs.settings"
    ∷ entry hub "badges.manage"
    ∷ entry hub "alliances.manage"
    ∷ entry hub "directory.publish"
    ∷ entry hub "webhooks.incoming.manage"
    ∷ entry hub "webhooks.outgoing.manage"
    ∷ entry hub "apps.register"
    ∷ entry hub "audit.read"
    ∷ entry hub "surveys.manage"
    ∷ entry hub "surveys.responses.read"
    ∷ []

-- Ids only.
unfoldable pub all_permissions : List String
unfolding catalogue
all_permissions = map (λ p. p.id) catalogue

unfoldable pub scope_of : String → Option Scope
scope_of id = elim (find (λ p. str_eq p.id id) catalogue) [ none ↦ none | some p ↦ some p.scope ]

unfoldable pub validate_permissions : List String → Result (Unit {0})
validate_permissions [] = ok tt
validate_permissions (p ∷ ps) =
    let rest = validate_permissions ps in
    if not (contains all_permissions p)
    then fail bad_request ("unknown permission: " ++ p)
    else rest

-- The `match scope_of(p)` of the loop below: what it returns at, if it returns.
unfoldable pub check_overwrite : String → Option Scope → Result (Unit {0})
check_overwrite p none = fail bad_request ("unknown permission: " ++ p)
check_overwrite p (some s) =
    if not (allows_channel s)
    then fail bad_request (p ++ " is hub-wide only and cannot be a channel overwrite")
    else ok tt

unfoldable pub validate_channel_overwrite : List String → Result (Unit {0})
validate_channel_overwrite [] = ok tt
validate_channel_overwrite (p ∷ ps) = do
  check_overwrite p (scope_of p)
  validate_channel_overwrite ps
