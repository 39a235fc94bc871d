-- ===== src/Pldmd/TidMapper/Tests.antt =====
-- struct TIDMapper of pldmd/src/pldmd.cpp on a concrete map.
use pmci.Prelude.{[], ◌∷◌, arith}
use pmci.Pldmd.TidMapper.{TidMap, add_entry, remove_entry}
use pmci.Pldmd.TidMapper.Bijection.{IsOneToOne, tid_mapper-IsOneToOne}

abbrev termini : TidMap
termini = (1, 10) ∷ (4, 8) ∷ []

IsOneToOne-termini : IsOneToOne termini
IsOneToOne-termini = record { sorted = (omega arith, tt); distinct = ((omega arith, tt), (tt, tt)) }

tid_mapper-IsOneToOne_example :
    IsOneToOne (add_entry 4 9 termini).0 × IsOneToOne (remove_entry 4 termini)
tid_mapper-IsOneToOne_example = tid_mapper-IsOneToOne termini 4 9 IsOneToOne-termini
