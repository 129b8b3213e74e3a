-- ===== src/Main/Alone.antt =====
-- With -j 0 main calls recv_loop itself: what becomes of the set of handles of
-- lib/PublicInbox/xap_helper.h then.
use public_inbox.Cache.{Cache}
