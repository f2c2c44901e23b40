-- ===== src/Mode/Numerics.antt =====
-- src/numeric.rs: the numerics that the handlers of modes send.
use echoi_rcd.Prelude.{ℕ}

abbrev pub rpl_banlist : ℕ
rpl_banlist = 367

abbrev pub rpl_endofbanlist : ℕ
rpl_endofbanlist = 368

abbrev pub rpl_exceptlist : ℕ
rpl_exceptlist = 348

abbrev pub rpl_endofexceptlist : ℕ
rpl_endofexceptlist = 349

abbrev pub rpl_invexlist : ℕ
rpl_invexlist = 346

abbrev pub rpl_endofinvexlist : ℕ
rpl_endofinvexlist = 347

abbrev pub rpl_spamfilter : ℕ
rpl_spamfilter = 941

abbrev pub rpl_endofspamfilter : ℕ
rpl_endofspamfilter = 940

abbrev pub rpl_exemptionlist : ℕ
rpl_exemptionlist = 954

abbrev pub rpl_endofexemptionlist : ℕ
rpl_endofexemptionlist = 953

abbrev pub rpl_autooplist : ℕ
rpl_autooplist = 910

abbrev pub rpl_endofautoop : ℕ
rpl_endofautoop = 911

abbrev pub err_noprivileges : ℕ
err_noprivileges = 481

abbrev pub err_e2eonlychan : ℕ
err_e2eonlychan = 927

abbrev pub err_allmustssl : ℕ
err_allmustssl = 490

abbrev pub err_banlistfull : ℕ
err_banlistfull = 478

abbrev pub rpl_hosthidden : ℕ
rpl_hosthidden = 396

abbrev pub rpl_snomaskis : ℕ
rpl_snomaskis = 8

abbrev pub err_usersdontmatch : ℕ
err_usersdontmatch = 502

abbrev pub rpl_umodeis : ℕ
rpl_umodeis = 221

abbrev pub err_umodeunknownflag : ℕ
err_umodeunknownflag = 501

abbrev pub err_unknownmode : ℕ
err_unknownmode = 472

abbrev pub err_invalidmodeparam : ℕ
err_invalidmodeparam = 696

abbrev pub rpl_channelmodeis : ℕ
rpl_channelmodeis = 324

abbrev pub rpl_creationtime : ℕ
rpl_creationtime = 329

abbrev pub err_nosuchchannel : ℕ
err_nosuchchannel = 403
