-- ===== src/Collectors.antt =====
-- collectors/: the collectors of a Linux host, over what the host answers.
pub mod Host
pub mod Fixtures
pub mod Sections
pub mod Tee
pub mod Iommu
pub mod Hugepages
pub mod Kernel
pub mod Bond
pub mod Numactl
pub mod NodeDirs
pub mod Numa
pub mod Provisioned
pub mod Lspci
pub mod Pci
pub mod Gpu
pub mod Devinfo
pub mod Rdma
pub mod Lldp
pub mod Ipmi
pub mod Offload
pub mod NicOffload
pub mod Nvme
pub mod Smbios
pub mod Cpu
pub mod Disk
pub mod Nic
pub mod LinuxHost
pub mod Redfish
pub mod Wiring
mod Tests
