-- ===== src/Message/Parts/Setters.antt =====
-- The setters of Qid and Stat. A number is converted to the width of the parameter that takes it.
use libkzr.Prelude.{ℕ, ◌%◌, ◌^◌}
use libkzr.MessageStream.{Text}
use libkzr.Message.Parts.{Qid, Stat}

unfoldable pub qid_set_type : ℕ → Qid → Qid
qid_set_type v q = record q { type = v % 2 ^ 8 }

unfoldable pub qid_set_version : ℕ → Qid → Qid
qid_set_version v q = record q { version = v % 2 ^ 32 }

unfoldable pub qid_set_path : ℕ → Qid → Qid
qid_set_path v q = record q { path = v % 2 ^ 64 }

unfoldable pub stat_set_type : ℕ → Stat → Stat
stat_set_type value st = record st { type = value % 2 ^ 16 }

unfoldable pub stat_set_device : ℕ → Stat → Stat
stat_set_device value st = record st { dev = value % 2 ^ 32 }

unfoldable pub stat_set_qid : Qid → Stat → Stat
stat_set_qid value st = record st { qid = value }

unfoldable pub stat_set_permissions : ℕ → Stat → Stat
stat_set_permissions value st = record st { mode = value % 2 ^ 32 }

unfoldable pub stat_set_last_access_time : ℕ → Stat → Stat
stat_set_last_access_time value st = record st { atime = value % 2 ^ 32 }

unfoldable pub stat_set_last_modification_time : ℕ → Stat → Stat
stat_set_last_modification_time value st = record st { mtime = value % 2 ^ 32 }

unfoldable pub stat_set_length : ℕ → Stat → Stat
stat_set_length value st = record st { length = value % 2 ^ 64 }

unfoldable pub stat_set_name : Text → Stat → Stat
stat_set_name value st = record st { name = value }

unfoldable pub stat_set_owner : Text → Stat → Stat
stat_set_owner value st = record st { uid = value }

unfoldable pub stat_set_group : Text → Stat → Stat
stat_set_group value st = record st { gid = value }

unfoldable pub stat_set_user_that_last_modified : Text → Stat → Stat
stat_set_user_that_last_modified value st = record st { muid = value }
