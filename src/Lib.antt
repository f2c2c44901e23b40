-- ===== src/Lib.antt =====
-- echoIRCd, an IRC daemon: its pure core, with the theorems that make it correct.
--
-- A line of a client or of a linked server is parsed into a message (src/message.rs), a handler
-- looks up the user and the channel, consults the channel's modes and lists, whose masks are
-- matched by the glob matcher of src/channels.rs, and changes the membership, the modes or the
-- lists of the channel.
--
-- Which file models which part:
--   Prelude: Boolean tests, lists, texts, decimal numerals and maps. A text is the list of its
--     codes, and a map an association list with one entry for each key.
--   Message (src/message.rs): `Message`, `to_wire` and `parse`. `parse` is cut at the blocks of
--     the source into `parse_tags`, `parse_source`, `parse_command` and `read_params`, and
--     `finish` joins them. `?` on an option is `>>=`.
--   Glob (src/channels.rs, `glob_match`, `glob_bytes`, `glob_chars`): the two loops are one loop
--     over a test of two characters. A position in a string is the rest of the string from
--     there, and `Back` is the pair `star` and `mark`.
--   Server.Users and Server.State (src/users.rs, src/server.rs): the user of a connection and
--     the state of the server, with the fields that the modelled code reads or writes. What the
--     code sends or tells to other parts is the list `out`, the last entry first.
--   Server.Watch (src/watch.rs) and Server.Accept (src/server.rs, src/users.rs): the WATCH,
--     MONITOR and ACCEPT lists with the reverse indexes and the count that the server keeps of
--     them.
--   Server.Quit (src/server.rs, `remove_user`): the removal of a user, cut into `drop_user`,
--     `scrub_nick` and `announce_quit`.
--   XLine (src/xline.rs): server bans. Kinds has the kinds and their tags, Duration the
--     durations, Db the saved text, Match who is hit, and Table the operations on the table.
--   Link (src/link.rs): the decision of a nick collision, the mode letters of remote users, and
--     the members that a burst lists.
--   Mode.Params, Mode.ListModes and Mode.UserModes (src/mode.rs): the other handlers. Those with
--     one parameter share the shape `param_apply`, of how a parameter is read, stored and shown.
--     Mode.Handlers has the table and the choice of the handler.
--   Mode.Dispatch and Mode.UserDispatch (src/coremods/core_mode.rs): MODE for channels and
--     users, and the same with the authority of the server. The loops over the letters are
--     functions on a record of their variables; an index that is not there is the result
--     `panicked`.
--   Mode.Hidden (src/modules/hidelist.rs, src/modules/hidemode.rs): lists and changes that
--     members of low rank are not shown.
--   Membership (src/channels.rs): who is on which channel. PART, the forced one, the kick of
--     floods and the arrival are functions there, renames are in Rename, the counters of floods
--     and the timed bans in Floods.
--   Entry (src/channels.rs and src/modules/): the conditions of JOIN. Bans has the lists with
--     their extbans, Doors the modules that forbid names, Denied what an existing channel asks,
--     Join the whole. A redirect is another round of `join`; its fuel is the number of rounds,
--     ten: one redirect for a ban or a limit, eight of denychans, and the last channel.
--   Command (src/coremods/core_channel.rs): the handlers of JOIN, PART, REMOVE and TOPIC. Ways
--     has the steps by which members change.
--   Mode.Prefix and Mode.Members (src/mode.rs, src/channels.rs): the handler of the prefix
--     modes, cut into `prefix_apply`, `apply_to` and `grant`, with the rank of the actor and the
--     arrival that a grant reveals.
--   I18n (src/i18n.rs, `render`): templates with placeholders.
--   Clock (src/server.rs, `civil`, `iso_time`, `long_date`): dates.
--   Channel.Prefixes (src/modules/customprefix.rs): the tiers that the configuration defines.
--     Where the source reads the static `CFG`, the definitions take it as an argument.
--   Channel.Member (src/channels.rs, `Member`): the prefixes of a member, as bits and as custom
--     letters.
--   Channel.Modes and Channel.Record (src/channels.rs, `ChanModes`, `Channel`): the modes with
--     their setter by letter and their rendering, and the record of the channel.
--   Channel.Masks (src/channels.rs): how the masks of bans are filled out, and which names a
--     channel may have.
--
-- A hash map is an association list, and a set a list. The order of iteration, of which the
-- program knows nothing, is that of the list.
--
-- Fuel: `fill`, the loop of `render`, has the length of the template, and each round uses up a
-- character at least. `read_params` and the loop of the glob matcher run on fuel. `parse` gives
-- the first the length of its text, and every round uses up a character at least. The second has
-- the measure of the two texts that `Glob.Total` shows to fall.
--
-- What the program takes from elsewhere is an argument of the definitions: `str::to_lowercase`
-- in `glob_match`, the clock, the translations of the catalog, and the length of a text in
-- UTF-8.
--
-- The extbans of modules with data of their own and the class of a connection are arguments of
-- `join`.
--
-- What is not modelled: sockets, TLS, the resolver, the databases and the HTTP services, which
-- do I/O; the other commands, the registration of connections, messages, the regular expressions
-- and the codecs of the services; and the optional modules that are not named above.
pub mod Prelude
pub mod Message
pub mod Glob
pub mod Channel
pub mod I18n
pub mod Clock
pub mod Server
pub mod XLine
pub mod Mode
pub mod Link
pub mod Command
pub mod Entry
pub mod Membership
