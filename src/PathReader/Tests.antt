-- ===== src/PathReader/Tests.antt =====
-- A run of kernel/lib/pathreader.c.
use yjkos.Prelude.{[], ◌∷◌}
use yjkos.PathReader.{pathreader_next}
use yjkos.PathReader.Components.{Read}
use yjkos.PathReader.Next.{pathreader_next-Read}

-- `//a/b`
pathreader_next-Read_example :
    Read (47 ∷ 47 ∷ 97 ∷ 47 ∷ 98 ∷ []) (pathreader_next (47 ∷ 47 ∷ 97 ∷ 47 ∷ 98 ∷ []))
pathreader_next-Read_example = pathreader_next-Read (47 ∷ 47 ∷ 97 ∷ 47 ∷ 98 ∷ [])
