-- ===== src/Archive/Maintenance/Impact.antt =====
-- The impact that a candidate shows is what its deletion does.
use vb_api.Prelude.{Uuid, not, List, map, filter, ◌==◌}
use vb_api.Archive.Store.{ArchiveFile}

abbrev pub file_ids : List ArchiveFile → List Uuid
file_ids files = map (λ (f : ArchiveFile). f.id) files

-- The rows other than the one of the file.
abbrev others : Uuid → List ArchiveFile → List ArchiveFile
others i files = filter (λ (g : ArchiveFile). not (g.id == i)) files
