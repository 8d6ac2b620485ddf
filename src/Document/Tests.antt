-- ===== src/Document/Tests.antt =====
-- src/core/document.rs: the theorem at a document with an overflow page, on the pages of a pager.
use jasonisnthappy.Base.{
  ℕ, refl, inl, false, [], ◌∷◌, replicate, length-drop, length-replicate, arith,
}
use jasonisnthappy.Base.Map
use jasonisnthappy.Lru.Cache.{new_cache, get_read_only, is_dirty}
use jasonisnthappy.Lru.Sequences.{new_cache-IsValid}
use jasonisnthappy.Pager.State.{Pager}
use jasonisnthappy.Btree.Utf8.{is_utf8}
use jasonisnthappy.Btree.PagerStore.{pager_store}
use jasonisnthappy.Document.Versioned.{VersionedDocument, write_versioned_document}
use jasonisnthappy.Document.FirstPage.{first_size}
use jasonisnthappy.Document.Read.{IsWritable}
use jasonisnthappy.Document.PagerGiver.{GivesPages, pager_giver}
use jasonisnthappy.Document.WriteRead.{ReadsBack, write_versioned_document-ReadsBack}

abbrev document : VersionedDocument
document = record { id = b'a' ∷ []; content = replicate 5000 7; xmin = 3; xmax = 0 }

document-IsWritable : IsWritable document
unfolding is_utf8
document-IsWritable =
    let size = length-replicate {A = ℕ} 5000 7 in
    record {
      some_id = omega arith;
      short_id = omega arith;
      utf8 = refl;
      size = omega (arith, size);
      xmin = omega arith;
      xmax = omega arith;
    }

abbrev pager : Pager
pager = record {
  file = [];
  cache = new_cache 1;
  num_pages = 1;
  metadata_page = 0;
  next_tx_id = 1;
  free_list = [];
  read_only = false;
}

pager-GivesPages : GivesPages pager [] 2
unfolding get_read_only is_dirty Map.get
pager-GivesPages = record {
  held = record {
    sound = record { pages = omega arith; metadata = inl refl; free = tt; distinct = tt };
    range = tt;
    distinct = tt;
    used = tt;
    metadata = tt;
  };
  coherent = record {
    valid = new_cache-IsValid 1;
    whole = λ q d e. cc e;
    clean = λ q d e k. cc e;
    dirty = λ q h. cc h;
  };
  writable = refl;
  room = omega arith;
}

write_versioned_document-ReadsBack_example :
    ReadsBack pager_giver document [] []
      (write_versioned_document pager_store document.id document.content 3 0 (pager, []))
write_versioned_document-ReadsBack_example =
    let size = length-replicate {A = ℕ} 5000 7 in
    write_versioned_document-ReadsBack pager_giver document [] 1 pager [] document-IsWritable
      pager-GivesPages
      (omega (
        arith,
        size,
        length-drop {A = ℕ} (first_size document.id document.content 3 0) document.content,
      ))
      (omega arith)
