-- ===== src/Csi/Controller/Request.antt =====
-- The requests of the controller service, by the method of `csi.ControllerServer` that they call.
use union_csi.Csi.{
  CreateVolumeRequest, DeleteVolumeRequest, ControllerPublishVolumeRequest,
  ControllerUnpublishVolumeRequest,
}

-- What a method does not read of its request is left out.
pub data Request : Type 0 where
  create_volume : CreateVolumeRequest → Request
  delete_volume : DeleteVolumeRequest → Request
  controller_publish_volume : ControllerPublishVolumeRequest → Request
  controller_unpublish_volume : ControllerUnpublishVolumeRequest → Request
  validate_volume_capabilities list_volumes get_capacity controller_get_capabilities : Request
  create_snapshot delete_snapshot list_snapshots controller_expand_volume : Request
  controller_get_volume : Request
