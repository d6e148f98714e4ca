-- ===== src/Tests/Provider.antt =====
-- Two calls for one file: one opens it, the other waits and returns when it is open.
use portolan.Prelude.{true, false, none, some, [], Bytes, codes, equal, ◌≡◌, ◌≤◌, refl}
use portolan.Context.{ok}
use portolan.Pathnorm.{Host}
use portolan.Pathnorm.Uri.{UrlPackage, file_url, path_to_uri}
use portolan.Pathnorm.{canonicalize, is_unc_path, split_mount_drive}
use portolan.Text.Segments.{clean_rooted, slashed}
use portolan.Lsp.Uri.{language_id_for_file}
use portolan.Lsp.Provider.{
  TextDocumentItem, start_open, source_of, sent_after, put, put_file, entering, waiting, returned,
  claim, finish, opened_source, Outside, open_file, System, set_routine, claim_as, claim_with,
  finish_as, new_provider, called, claimed, finished, Reach, start, next,
}
use portolan.Lsp.Provider.Opening.{Reach-sent_once, Reach-returned_open}
use portolan.Lsp.Provider.Invariant.{sent_item, sent_source, times_sent}

abbrev pub host : Host
host = record { distro_name = []; equal_fold = equal }

-- A net/url that escapes nothing.
abbrev pub urls : UrlPackage
urls = record {
  parse = λ s. ok (file_url s []);
  to_string = λ u. u.path;
  escaped_path = λ u. u.path;
}

abbrev file : Bytes
file = codes "/a.ts"

abbrev outside : Outside
outside = record {
  read_file = ok (codes "let a");
  notify = λ item. none;
  ctx_err = none;
  is_open = true;
}

abbrev both_called : System
both_called = set_routine 1 (entering file) (set_routine 0 (entering file) new_provider)

abbrev both_claimed : System
both_claimed = claim_as 1 file (claim_as 0 file both_called)

both_called-Reach : Reach host urls both_called
unfolding set_routine new_provider put
both_called-Reach =
    next (next start (called new_provider 0 file refl))
      (called (set_routine 0 (entering file) new_provider) 1 file refl)

both_claimed-Reach : Reach host urls both_claimed
unfolding set_routine new_provider put claim_as claim_with claim put_file
both_claimed-Reach =
    next (next both_called-Reach (claimed both_called 0 file refl))
      (claimed (claim_as 0 file both_called) 1 file refl)

abbrev opened : System
opened = finish_as 0 file 0 (open_file host urls file outside) both_claimed

opened-Reach : Reach host urls opened
unfolding set_routine new_provider put claim_as claim_with claim put_file
opened-Reach = next both_claimed-Reach (finished both_claimed 0 file 0 outside refl)

opened_source-opened : opened_source file opened.opens ≡ some (codes "let a")
unfolding finish_as claim_as claim_with claim set_routine finish open_file path_to_uri canonicalize
    is_unc_path clean_rooted slashed split_mount_drive put put_file opened_source source_of
    sent_after equal new_provider language_id_for_file start_open
opened_source-opened = refl

Reach-sent_once_example :
    (opened_source file opened.opens ≡ sent_source file opened.sent)
    × (times_sent file opened.sent ≤ 1)
Reach-sent_once_example = Reach-sent_once host urls opened-Reach file

returned_at_0 : opened.routines 0 ≡ returned file none
unfolding finish_as claim_as claim_with claim set_routine finish open_file path_to_uri canonicalize
    is_unc_path clean_rooted slashed split_mount_drive put put_file equal new_provider
returned_at_0 = refl

Reach-returned_open_example :
    (item : TextDocumentItem) × ((opened_source file opened.opens ≡ some item.text)
      × ((sent_item file opened.sent ≡ some item) × (path_to_uri host urls file ≡ ok item.uri)))
Reach-returned_open_example = Reach-returned_open host urls opened-Reach 0 file returned_at_0

waits_at_1 : both_claimed.routines 1 ≡ waiting file 0
unfolding set_routine new_provider put claim_as claim_with claim put_file equal start_open
waits_at_1 = refl

not_done_at_0 : (both_claimed.opens.transitions 0).done ≡ false
unfolding set_routine new_provider put claim_as claim_with claim put_file equal start_open
not_done_at_0 = refl
