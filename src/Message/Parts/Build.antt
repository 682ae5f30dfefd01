-- ===== src/Message/Parts/Build.antt =====
-- A Qid and a Stat that fit the wire can be built by their setters.
use libkzr.Prelude.{◌%◌, ◌^◌, ◌≡◌, arith}
use libkzr.Operations.{ConceptualOperation, MessageDirection, translate_concept}
use libkzr.Message.Parts.{MessageHeader, set_tag, fresh_header, Qid, Stat, fresh_qid, fresh_stat}
use libkzr.Message.Parts.Wire.{IsQid, IsStat, IsHeader}
use libkzr.Message.Parts.Setters.{
  qid_set_type, qid_set_version, qid_set_path, stat_set_type, stat_set_device, stat_set_qid,
  stat_set_permissions, stat_set_last_access_time, stat_set_last_modification_time, stat_set_length,
  stat_set_name, stat_set_owner, stat_set_group, stat_set_user_that_last_modified,
}

unfoldable pub build_qid : Qid → Qid
build_qid q = qid_set_path q.path (qid_set_version q.version (qid_set_type q.type fresh_qid))

pub build_qid_lem : (q : Qid) → IsQid q → build_qid q ≡ q
unfolding build_qid qid_set_type qid_set_version qid_set_path
build_qid_lem q w =
    let type : q.type % 2 ^ 8 ≡ q.type = omega arith in
    let version : q.version % 2 ^ 32 ≡ q.version = omega arith in
    let path : q.path % 2 ^ 64 ≡ q.path = omega arith in
    λ i. record { type = type i; version = version i; path = path i }

unfoldable pub build_stat : Stat → Stat
unfolding build_qid
build_stat st = stat_set_user_that_last_modified st.muid (
    stat_set_group st.gid (
      stat_set_owner st.uid (
        stat_set_name st.name (
          stat_set_length st.length (
            stat_set_last_modification_time st.mtime (
              stat_set_last_access_time st.atime (
                stat_set_permissions st.mode (
                  stat_set_qid (build_qid st.qid)
                    (stat_set_device st.dev (stat_set_type st.type fresh_stat))))))))))

pub build_stat_lem : (st : Stat) → IsStat st → build_stat st ≡ st
unfolding build_stat stat_set_type stat_set_device stat_set_qid stat_set_permissions
    stat_set_last_access_time stat_set_last_modification_time stat_set_length stat_set_name
    stat_set_owner stat_set_group stat_set_user_that_last_modified
build_stat_lem st w =
    let p_type : st.type % 2 ^ 16 ≡ st.type = omega (arith, w.type_fits) in
    let p_dev : st.dev % 2 ^ 32 ≡ st.dev = omega (arith, w.dev_fits) in
    let p_mode : st.mode % 2 ^ 32 ≡ st.mode = omega (arith, w.mode_fits) in
    let p_atime : st.atime % 2 ^ 32 ≡ st.atime = omega (arith, w.atime_fits) in
    let p_mtime : st.mtime % 2 ^ 32 ≡ st.mtime = omega (arith, w.mtime_fits) in
    let p_length : st.length % 2 ^ 64 ≡ st.length = omega (arith, w.length_fits) in
    let p_qid = build_qid_lem st.qid w.qid_fits in
    λ i. record {
      type = p_type i;
      dev = p_dev i;
      qid = p_qid i;
      mode = p_mode i;
      atime = p_atime i;
      mtime = p_mtime i;
      length = p_length i;
      name = st.name;
      uid = st.uid;
      gid = st.gid;
      muid = st.muid;
    }

-- The header that `Message<op, dir>()` makes, and then `setTag`.
unfoldable pub build_header : ConceptualOperation → MessageDirection → MessageHeader → MessageHeader
build_header op dir h = set_tag h.tag (fresh_header op dir)

pub build_header_lem :
    (op : ConceptualOperation) (dir : MessageDirection) (h : MessageHeader)
    → IsHeader h
    → translate_concept op dir ≡ h.op
    → build_header op dir h ≡ h
unfolding build_header set_tag fresh_header
build_header_lem op dir h w e =
    let p_tag : h.tag % 2 ^ 16 ≡ h.tag = omega (arith, w.tag_fits) in
    λ i. record { op = e i; tag = p_tag i }
