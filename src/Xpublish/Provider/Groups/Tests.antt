-- ===== src/Xpublish/Provider/Groups/Tests.antt =====
-- A dataset whose times are stored out of order.
use teehr_cloud_core.Base.{String, ◌≡◌, refl, none, some, [], ◌∷◌}
use teehr_cloud_core.Xpublish.Provider.Groups.{
  place_by, sorted_by, XDataset, with_scalar_coords, sorted_by_time, with_cycle_axis, open_group,
}

abbrev stored : XDataset String
stored = record {
  data_vars = ("flow", 3) ∷ ("crs", 0) ∷ [];
  coords = "x" ∷ [];
  dims = "time" ∷ "x" ∷ [];
  time = (2, "b") ∷ (1, "a") ∷ [];
  reference_time_axis = none;
  value_time_standard_name = some "time";
}

opened_in_order : open_group stored ≡ record stored {
  data_vars = ("flow", 3) ∷ [];
  coords = "x" ∷ "crs" ∷ [];
  time = (1, "a") ∷ (2, "b") ∷ [];
}
unfolding open_group with_scalar_coords sorted_by_time with_cycle_axis sorted_by place_by
opened_in_order = refl
