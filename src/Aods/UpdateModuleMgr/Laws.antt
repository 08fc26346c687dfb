-- ===== src/Aods/UpdateModuleMgr/Laws.antt =====
-- The updates of the controller (src/dev/aodc/UpdateModule.cpp) at the host
-- (src/dev/aods/UpdateModuleMgr.cpp), and the reports of the host at the controller.
use aods.Base.{
  Bytes, Bytes-Key, IsText, List, Option, [], and_then, ap, append_assoc, arith, bytes_eq,
  bytes_eq_refl, c_str, codes, decimal, false, get_or, get_or-behind, le32, leb, length,
  length-append, le→ltb, lookup, ltb, lt→ltb, not, read32-le32, refl, some, split_str,
  split_str-c_str, true, u32, ℕ, ℕ-Key, ◌%◌, ◌++◌, ◌+◌, ◌-◌, ◌<◌, ◌==◌, ◌||◌, ◌∙◌, ◌∷◌, ◌≡◌, ◌≤◌,
}
use aods.Aods.DownloadThread.{DownloadItem, DownloadThread, append_task}
use aods.Aods.UpdateModuleMgr.{
  ModuleInfo, UpdateMgr, append_download_task, forced, known_module, known_project, make_dirs,
  max_path_len, mgr_recv_channel_data, next_text, on_recv_umi, pub_file, start_update, umi_texts_of,
}
use aods.Util.Module.Handlers.{stop}
use aods.Util.FileControl.Paths.{create_dirs}
use aods.Aodc.UpdateModule.{aodc_aods_umi}
use aods.Aods.AuthModule.{aodc_client}
use aods.Aods.AuthModule.Laws.{aodc_client-IsText}

-- The texts of a task hold no terminator.
pub record AreTexts (di : DownloadItem) : Type 0 where
  pub prj : IsText di.prj
  pub module_name : IsText di.module_name
  pub ver : IsText di.file_ver
  pub hash : IsText di.file_hash
  pub url : IsText di.url
  pub pwd : IsText di.pwd

-- The six texts of an update, in the order of the controller.
abbrev pub update_texts : DownloadItem → Bytes
update_texts di =
    c_str di.prj
    ++ (c_str di.module_name
        ++ (c_str di.file_ver ++ (c_str di.file_hash ++ (c_str di.url ++ c_str di.pwd))))

-- A text at the front.
pub split_str-text : (s rest : Bytes) → IsText s → split_str (c_str s ++ rest) ≡ some (s, rest)
split_str-text s rest h = ap split_str (append_assoc s (0 ∷ []) rest) ∙ split_str-c_str s rest h

next_text-text :
    {A : Type 0} (s rest : Bytes) (stop : A) (k : Bytes → Bytes → Option A)
    → IsText s
    → 0 < length rest
    → next_text (c_str s ++ rest) stop k ≡ k s rest
next_text-text s rest stop k h pos =
    let long : leb (length (c_str s ++ rest)) 1 ≡ false =
      ground (arith, length-append (c_str s) rest, length-append s (0 ∷ []), pos) in
    rw (long, split_str-text s rest h)

behind_text : (s rest : Bytes) → 0 < length rest → 0 < length (c_str s ++ rest)
behind_text s rest pos = omega (arith, length-append (c_str s) rest)

-- The version, the hash, the address and the password of an update.
umi_texts_of_lem :
    (dir : Bytes) (tick flag : ℕ) (di : DownloadItem) (st : UpdateMgr)
    → AreTexts di
    → umi_texts_of dir tick di.prj di.module_name
        (c_str di.file_ver ++ (c_str di.file_hash ++ (c_str di.url ++ (c_str di.pwd ++ flag ∷ []))))
        st
      ≡ forced dir tick (record di { save_file_name = [] }) st (flag ∷ [])
umi_texts_of_lem dir tick flag di st w =
    let r4 : Bytes = flag ∷ [] in
    let r3 = c_str di.pwd ++ r4 in
    let r2 = c_str di.url ++ r3 in
    let r1 = c_str di.file_hash ++ r2 in
    let p4 : 0 < length r4 = omega arith in
    let p3 = behind_text di.pwd r4 p4 in
    let p2 = behind_text di.url r3 p3 in
    let p1 = behind_text di.file_hash r2 p2 in
    next_text-text di.file_ver r1 _ _ w.ver p1
    ∙ next_text-text di.file_hash r2 _ _ w.hash p2
    ∙ next_text-text di.url r3 _ _ w.url p3
    ∙ next_text-text di.pwd r4 _ _ w.pwd p4

-- The update as one text after the other.
update_bytes :
    (di : DownloadItem) (flag : ℕ)
    → update_texts di ++ flag ∷ []
      ≡ c_str di.prj
        ++ (c_str di.module_name
            ++ (c_str di.file_ver
                ++ (c_str di.file_hash ++ (c_str di.url ++ (c_str di.pwd ++ flag ∷ [])))))
update_bytes di flag =
    rw
      (
        append_assoc (c_str di.prj),
        append_assoc (c_str di.module_name),
        append_assoc (c_str di.file_ver),
        append_assoc (c_str di.file_hash),
        append_assoc (c_str di.url),
      )
      refl

-- The byte before the last one is a terminator.
texts_front : DownloadItem → Bytes
texts_front di =
    c_str di.prj
    ++ (c_str di.module_name
        ++ (c_str di.file_ver ++ (c_str di.file_hash ++ (c_str di.url ++ di.pwd))))

texts_front_lem : (di : DownloadItem) → update_texts di ≡ texts_front di ++ 0 ∷ []
unfolding texts_front
texts_front_lem di =
    rw
      (
        append_assoc (c_str di.prj),
        append_assoc (c_str di.module_name),
        append_assoc (c_str di.file_ver),
        append_assoc (c_str di.file_hash),
        append_assoc (c_str di.url),
      )
      refl

before_last :
    (s : Bytes) (flag : ℕ)
    → get_or ((s ++ 0 ∷ []) ++ flag ∷ []) (length ((s ++ 0 ∷ []) ++ flag ∷ []) - 2) 0 ≡ 0
before_last s flag =
    let off : length ((s ++ 0 ∷ []) ++ flag ∷ []) - 2 ≡ length s =
      omega (arith, length-append (s ++ 0 ∷ []) (flag ∷ []), length-append s (0 ∷ [])) in
    rw (off, append_assoc s (0 ∷ []) (flag ∷ [])) (get_or-behind (length s) 0 s (flag ∷ []) refl)

-- The tests of an update.
update_ends :
    (di : DownloadItem) (flag : ℕ)
    → let s = update_texts di ++ flag ∷ [] in
      (ltb (length s) 2 || not (get_or s (length s - 2) 0 == 0)) ≡ false
update_ends di flag =
    let s = update_texts di ++ flag ∷ [] in
    let ends : get_or s (length s - 2) 0 ≡ 0 =
      ap (λ z. get_or (z ++ flag ∷ []) (length (z ++ flag ∷ []) - 2) 0) (texts_front_lem di)
      ∙ before_last (texts_front di) flag in
    let size : 2 ≤ length s = omega (
      arith,
      ap length (texts_front_lem di),
      length-append (update_texts di) (flag ∷ []),
      length-append (texts_front di) (0 ∷ []),
    ) in
    rw (ends, le→ltb (length s) 2 size) refl

-- An update for a module that the host has comes down to its last byte.
on_recv_umi-forced :
    (dir : Bytes) (tick flag : ℕ) (di : DownloadItem) (mm : List (Bytes × ModuleInfo))
    (mi : ModuleInfo) (st : UpdateMgr)
    → AreTexts di
    → lookup di.prj st.pm ≡ some mm
    → lookup di.module_name mm ≡ some mi
    → on_recv_umi dir tick (update_texts di ++ flag ∷ []) st
      ≡ forced dir tick (record di { save_file_name = [] }) st (flag ∷ [])
unfolding on_recv_umi
on_recv_umi-forced dir tick flag di mm mi st w has_prj has_module =
    let r4 : Bytes = flag ∷ [] in
    let r1 = c_str di.file_ver ++ (c_str di.file_hash ++ (c_str di.url ++ (c_str di.pwd ++ r4))) in
    let r0 = c_str di.module_name ++ r1 in
    let pos : 0 < length r1 =
      behind_text di.file_ver _
        (behind_text di.file_hash _ (behind_text di.url _ (behind_text di.pwd r4 (omega arith)))) in
    let cut : split_str (update_texts di ++ flag ∷ []) ≡ some (di.prj, r0) =
      ap split_str (update_bytes di flag) ∙ split_str-text di.prj r0 w.prj in
    rw (update_ends di flag, cut)
      (ap (known_project dir tick di.prj r0 st) has_prj
        ∙ next_text-text di.module_name r1 _ _ w.module_name pos
        ∙ ap (known_module dir tick di.prj di.module_name r1 st) has_module
        ∙ umi_texts_of_lem dir tick flag di st w)

-- A task that is to be saved to the file that the project, the module, the version, the number of
-- updates so far and the tick name.
abbrev pub filed : Bytes → ℕ → DownloadItem → UpdateMgr → DownloadItem
filed dir tick di st = record di {
  save_file_name =
      dir
      ++ (codes "/pub/"
          ++ (di.prj
              ++ (codes "."
                  ++ (di.module_name
                      ++ (codes "."
                          ++ (di.file_ver
                              ++ (codes "."
                                  ++ (decimal st.update_times
                                      ++ (codes "." ++ (decimal tick ++ codes ".zip"))))))))));
}

-- A thread with one more task, behind those that it has.
abbrev pub with_last : DownloadItem → DownloadThread → DownloadThread
with_last item t = record t { items = t.items ++ item ∷ []; load = t.load + 1 }

pub_dir :
    (dir rest : Bytes)
    → length (dir ++ (codes "/pub/" ++ rest)) < max_path_len
    → length (dir ++ codes "/pub") + 1 ≤ max_path_len
pub_dir dir rest short = omega (
  arith,
  length-append dir (codes "/pub/" ++ rest),
  length-append (codes "/pub/") rest,
  length-append dir (codes "/pub"),
)

start_update_lem :
    (dir : Bytes) (tick : ℕ) (di : DownloadItem) (t : DownloadThread) (st : UpdateMgr)
    → st.threads ≡ t ∷ []
    → t.load < 0xFFFFFF
    → length (pub_file dir di.prj di.module_name di.file_ver st.update_times tick) < max_path_len
    → start_update dir tick (record di { save_file_name = [] }) st
      ≡ some (
        record st {
          threads = with_last (filed dir tick di st) t ∷ [];
          update_times = u32 (st.update_times + 1);
        },
        make_dirs (create_dirs (dir ++ codes "/pub")) ∷ [],
      )
unfolding append_download_task append_task
start_update_lem dir tick di t st one light short =
    let file = pub_file dir di.prj di.module_name di.file_ver st.update_times tick in
    let in_file : ltb max_path_len (length file + 1) ≡ false =
      le→ltb max_path_len (length file + 1) (omega arith) in
    let in_dir : ltb max_path_len (length (dir ++ codes "/pub") + 1) ≡ false =
      le→ltb max_path_len (length (dir ++ codes "/pub") + 1) (pub_dir dir _ short) in
    let chosen : ltb t.load 0xFFFFFF ≡ true = lt→ltb t.load 0xFFFFFF light in
    rw (in_dir, in_file)
      (ap
          (λ ts. and_then (append_download_task (filed dir tick di st) ts) (λ threads. some (
            record st { threads = threads; update_times = u32 (st.update_times + 1) },
            make_dirs (create_dirs (dir ++ codes "/pub")) ∷ [],
          )))
          one
        ∙ rw chosen refl)

-- The channel of the controller, at its front.
pub from_aodc :
    (code : ℕ) (s : Bytes)
    → split_str (c_str aodc_client ++ (le32 code ++ s)) ≡ some (aodc_client, le32 code ++ s)
from_aodc code s = split_str-text aodc_client (le32 code ++ s) aodc_client-IsText

-- An update of the controller for a module that the host has, with texts without terminators and
-- the flag that forces it, becomes one task behind those that the thread has, with the six texts
-- as they were, to be saved under the name of its project, module, version, number and tick, as long as less than 0xFFFFFF tasks wait and the name fits
-- into 256 bytes; nothing else of the host changes but the number of the updates.
pub mgr_recv_channel_data-task :
    (dir : Bytes) (tick : ℕ) (di : DownloadItem) (mm : List (Bytes × ModuleInfo)) (mi : ModuleInfo)
    (t : DownloadThread) (st : UpdateMgr)
    → AreTexts di
    → lookup di.prj st.pm ≡ some mm
    → lookup di.module_name mm ≡ some mi
    → st.threads ≡ t ∷ []
    → t.load < 0xFFFFFF
    → length (pub_file dir di.prj di.module_name di.file_ver st.update_times tick) < max_path_len
    → mgr_recv_channel_data dir tick
        (c_str aodc_client ++ (le32 aodc_aods_umi ++ (update_texts di ++ 1 % 256 ∷ [])))
        st
      ≡ some (
        record st {
          threads = with_last (filed dir tick di st) t ∷ [];
          update_times = u32 (st.update_times + 1);
        },
        make_dirs (create_dirs (dir ++ codes "/pub")) ∷ [],
      )
unfolding mgr_recv_channel_data
mgr_recv_channel_data-task dir tick di mm mi t st w has_prj has_module one light short =
    let s = update_texts di ++ 1 ∷ [] in
    let same : bytes_eq aodc_client aodc_client ≡ true = bytes_eq_refl aodc_client in
    rw (from_aodc aodc_aods_umi s, same, read32-le32 aodc_aods_umi s (omega arith))
      (on_recv_umi-forced dir tick 1 di mm mi st w has_prj has_module
        ∙ start_update_lem dir tick di t st one light short)
