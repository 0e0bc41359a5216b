-- ===== src/Lib.antt =====
-- Wavvon server: the decisions behind permissions, roles, channels, bans, signed messages, voice
-- packets and farms.
--
-- The program is a federated chat server. A hub keeps its members, roles and channels in a
-- database and answers requests; an identity signs messages that any hub can check; a farm hosts
-- many hubs, names them, places them on servers and restarts those that fall silent. The handlers
-- of a hub ask the permission resolver who may do what; signed messages arrive from other hubs and
-- from clients; the farm works on tables of its own.
--
-- Base has the shared helpers: Boolean tests on native numbers, lists, sets as lists, the integers
-- of priorities, and the tests of characters. Http has the results of the handlers.
--
-- Hub (crates/hub/src). A handler is a function from the tables to the tables and an answer
-- (Hub/Db: db/migrations.rs); what a statement wrote before a later one failed stays written,
-- except in a transaction. A check is a function of the tables alone.
--   Hub/Permissions: permissions.rs. Catalogue has CATALOGUE, validate_permissions and
--     validate_channel_overwrite; Caller has UserPermissions and user_permissions over the view
--     member_roles; Cascade has ancestor_chain, fetch_overwrites and fold_overwrites; Resolve has
--     channel_permissions, everyone_channel_permissions and channels_with_permission.
--   Hub/Roles: routes/roles.rs and routes/role_models.rs. create_role, update_role, delete_role,
--     assign_role and remove_role; Roles/Checks has what each checks before it writes, in the
--     order of the source, Roles/Appearance the colours and icons.
--   Hub/Moderation: routes/moderation. Moderation.antt has the predicates and the federated ban
--     policy of helpers.rs; Moderation/Bans the handlers of bans.rs, with require_can_moderate of
--     models.rs; Moderation/Rooms those of channel_mod.rs; Rank is about require_can_moderate.
--   Hub/BanEvasion: ban_evasion.rs, the addresses that a ban flags and the match of a newcomer.
--   Hub/Channels: routes/channels.rs and the requests of routes/chat_models.rs. create_channel,
--     reorder_channels, delete_channel and, in Channels/Update, update_channel; Channels/Walks has
--     node_depth, is_ancestor and channel_subtree_ids, Channels/Checks the guards of creation;
--     Forest, Moves, Subtree and Deletion are about the tree. The text with which create_channel
--     refuses a name that is taken leaves the name out.
--   Hub/Acts: the handlers of roles, overwrites and sanctions as requests of one system, as
--     server.rs routes them. A run performs requests one after the other, whatever each answers;
--     Sound has the invariant of a run; Keep, Gain, Loss, Taken, Fair and Written are about what
--     single requests do to it.
--     Redemption of invites and the handlers of channels are not among the requests.
--   Hub/Overwrites: routes/channel_permissions.rs. put_channel_permissions with its transaction and
--     delete_channel_permissions; Overwrites/Checks has their guards.
--   Hub/Invites: routes/invites.rs. validate_and_use_invite, the redemption of a code at
--     registration; join_with_invite, its redemption within a session, in Invites/Join, with
--     admit_member of auth/handlers.rs; apply_invite_role_grant in Invites/Grant; create_invite and
--     revoke_invite in Invites/Mint, with invite_status of routes/invite_models.rs.
--     Invites/Attempts and Invites/Uses are about attempts of both kinds, one after the other: joins
--     that run at the same time are not modelled, nor are get_join_info, list_invites and the
--     owner's code of a first boot.
--   Hub/Sample: a small hub to which the theorems are applied.
--
-- Identity (crates/identity/src).
--   Identity/Wire: wire.rs. Encode has write_u32_le, write_u64_le, write_str and write_str_vec;
--     Messages has the functions that build the bytes to sign; Kinds puts them in one family.
--   Identity/Pow: pow.rs, the level of a hash and the search for a nonce.
--   Identity/Voice: voice.rs, the wrapping of a sender's key and the sealing of packets. The hub
--     relays the packets without a key, and reads their counters (Hub/VoiceLoss: voice_loss.rs).
--
-- Farm (crates/farm/src).
--   Farm/Slug: slug.rs, the names of hubs. Farm/Placement: placement.rs, the node of a new hub.
--   Farm/Monitor: monitor.rs, the restarts of silent hubs. Farm/Heartbeats: receive_heartbeat of
--     routes/heartbeat.rs, by which a hub claims its row and resets the restarts.
--
-- Bounds. The walk up the channel tree is bounded by 64 links in the source, and so in the model.
-- is_ancestor looks at 50 links and node_depth refuses at 50, as in the source. channel_subtree_ids
-- loops in the source until nothing is new; in the model it has two rounds more than there are
-- channels, which is enough because a round that goes on has found a channel that was not seen.
-- A length is written modulo 2 ^ 32, as the cast does; the theorems on signed bytes ask that
-- lengths and numbers fit. A u32 is printed with fuel for ten digits, which every u32 has at most.
-- The search for a nonce, which has no end of its own, runs on fuel that is an argument; it is
-- enough as soon as it reaches a nonce of the target level. The nonce is a natural number: the u64 of
-- the source overflows past 2 ^ 64 - 1, which no search reaches.
-- The end of a ban or timeout is cast to an i64 as in the source; other timestamps and counters are
-- natural numbers, priorities are integers, and neither overflows within what is modelled, except
-- the expected count of Hub/VoiceLoss, which is taken modulo 2 ^ 64.
--
-- Parameters: hex::decode is a test on texts and SHA-256 a function on bytes, of which nothing is
-- assumed. AES-256-GCM, X25519 and HKDF are functions on bytes; where a theorem needs it, IsAead
-- says that decryption undoes encryption and a ciphertext is 16 bytes longer, and IsAgreement that
-- two parties agree.
--
-- Not modelled: database failures other than violated keys, concurrency between requests, the
-- HTTP and WebSocket layers, cryptography, published events, listings, and the components that only
-- move data. Uniqueness and references that the schema declares are hypotheses where a theorem
-- needs them.
pub mod Base
pub mod Http
pub mod Hub
pub mod Identity
pub mod Farm
