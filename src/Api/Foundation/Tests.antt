-- ===== src/Api/Foundation/Tests.antt =====
-- The sizes of the documents of routes/ogc_foundation.py.
use teehr_cloud_core.Base.{◌≡◌, refl, length}
use teehr_cloud_core.Api.Foundation.{root, conformance}

five_links : length root.links ≡ 5
unfolding root
five_links = refl

six_classes : length conformance ≡ 6
unfolding conformance
six_classes = refl
