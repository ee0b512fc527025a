-- ===== src/Admin/Issuing/Tests.antt =====
-- The page of apps/web/src/pages/AdminReadersPage.tsx while a second reader is created.
use novel_platform.Common.{String, true, false, none, some, List, [], ◌∷◌, ◌≡◌, ◌≢◌, refl}
use novel_platform.Common.Text.{str_eq}
use novel_platform.Admin.ReaderDetail.{Zone, ReaderIdentity}
use novel_platform.Admin.ReaderList.{
  Texts, ReaderFilter, filtered_readers, filter, keeps, is_active_reader,
}
use novel_platform.Admin.Issuing.{Issued, Issuing, created, create_listed}
use novel_platform.Admin.Issuing.Selecting.{created-selected_reader_id}
use novel_platform.Admin.Issuing.Credentials.{
  Event, copies, lists_created, selects, list_fails, is_created, happens, happen_all,
  created-issued,
}

abbrev zone : Zone
zone = record { behind = 0; ahead = 480 }

abbrev texts : Texts
texts = record { trim = λ t. t; lower = λ t. t; includes = str_eq }

abbrev reader : String → ReaderIdentity
reader id = record {
  id = id;
  display_name = id;
  admin_note = none;
  status = "active";
  credential = none;
}

abbrev issued : Issued
issued = record { reader = reader "new"; access_credential = "secret" }

abbrev page : Issuing
page = record {
  list = record {
    readers = reader "old" ∷ [];
    selected_reader_id = some "old";
    query = "";
    reader_filter = ReaderFilter.all;
  };
  mobile_detail_open = false;
  create_open = true;
  form = record {
    display_name = "new";
    admin_note = "";
    expires_at = 29043200;
    max_devices = 3;
    allow_new_devices = true;
  };
  issued = none;
  is_loading = false;
  is_creating = true;
  error = none;
  create_error = none;
  copy_status = none;
  sent = [];
}

created-selected_reader_id_example :
    let p' =
      create_listed texts
        (reader "old" ∷ reader "new" ∷ [])
        (created texts zone 29000000 issued page) in
    (p'.list.selected_reader_id ≡ some "old") × ((reader "old").id ≢ issued.reader.id)
unfolding filtered_readers filter keeps is_active_reader
created-selected_reader_id_example =
    created-selected_reader_id texts zone 29000000 issued page (reader "old") []
      (reader "old" ∷ reader "new" ∷ []) (reader "old") (reader "new" ∷ []) refl refl refl refl

abbrev events : List Event
events =
    copies false ∷ lists_created (reader "old" ∷ []) ∷ selects "old" ∷ list_fails "offline" ∷ []

created-issued_example :
    (happen_all texts zone events (happens texts zone (is_created 29000000 issued) page)).issued
    ≡ some issued
created-issued_example =
    created-issued texts zone 29000000 issued events page (refl, (refl, (refl, (refl, tt))))
